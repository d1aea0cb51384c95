-- ===== src/Samples/World.antt =====
-- A world for a reconcile of the sample job: every read succeeds, every write is accepted, and the
-- clock stands still.
use kangal_patch.Prelude.{ℕ, [], ◌∷◌}
use kangal_patch.Api.Kube.{ok}
use kangal_patch.Api.Job.{JobPhase}
use kangal_patch.Effect.Request.{
  Request, Response, now, load_or_store, forget, get_job, get_plan, get_node, get_secret,
  get_daemon_set, list_nodes, list_pods_on_node, list_pods_in_namespace, list_jobs_of_plan,
  list_child_plans, list_leases, list_all_plans, new_talos_client, talos_version,
  talos_schematic_id, server_version, list_releases,
}
use kangal_patch.Effect.Prog.{Handler}
use kangal_patch.Samples.{sample_job, sample_plan, worker_node}

abbrev pub answer : JobPhase → (r : Request) → Response r
answer phase now = 100
answer phase (load_or_store k t) = t
answer phase (forget k) = tt
answer phase (get_job k) = ok (sample_job phase)
answer phase (get_plan n) = ok sample_plan
answer phase (get_node n) = ok (worker_node "node")
answer phase (get_secret ns n) =
    ok (record { content = ("ca.crt", "a") ∷ ("tls.crt", "b") ∷ ("tls.key", "c") ∷ [] })
answer phase (get_daemon_set ns n) = ok (record {
  container_images = [];
  generation = 1;
  observed_generation = 1;
  desired_scheduled = 0;
  updated_scheduled = 0;
  number_ready = 0;
})
answer phase (list_nodes s) = ok (worker_node "node" ∷ [])
answer phase (list_pods_on_node n) = ok []
answer phase (list_pods_in_namespace ns n) = ok []
answer phase (list_jobs_of_plan p) = ok (sample_job phase ∷ [])
answer phase (list_child_plans p) = ok []
answer phase (list_leases ns p) = ok []
answer phase list_all_plans = ok []
answer phase server_version = ok "v1.32.0"
answer phase list_releases = ok []
answer phase (new_talos_client c) = ok (record { handle = 1 })
answer phase (talos_version c a) = ok "v1.13.0"
answer phase (talos_schematic_id c a) = ok ""
answer phase _ = ok tt

-- The state of the world is of no account.
abbrev pub sample_world : JobPhase → Handler ℕ
sample_world phase w r = (answer phase r, w)
