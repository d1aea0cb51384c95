-- ===== src/Job/Effects/Draining.antt =====
-- controllers/patchjob_controller.go and internal/drain/drain.go: the requests of startDrain and
-- waitForDrain.
use kangal_patch.Prelude.{
  ℕ, ℤ, ◌≡◌, refl, sym, ◌∙◌, inl, Bool, true, false, not, String, List, [], ◌∷◌, keep, is_empty,
  ltb_ℤ, sub_ℕ, subst, Option, none, some, keep-All, All,
}
use kangal_patch.Api.Kube.{
  Error, ErrorKind, Result, ok, ok-injective, Pod, not_found, too_many_requests, unmanaged_pods,
}
use kangal_patch.Api.Plan.{PatchPlan}
use kangal_patch.Api.Job.{PatchJob, pending, draining, is_terminal}
use kangal_patch.Effect.Prog.{◌>>=◌}
use kangal_patch.Effect.Sat.{Sat, returns, calls, Sat-bind, Sat-if, Sat-on_err, Any}
use kangal_patch.Drain.{
  DrainOptions, cordon_node, list_pods, ignore_not_found, force_delete_pod, eviction_refused, evict,
  evict_all, drain_node, is_drained,
}
use kangal_patch.Drain.Pods.{blocks_drain, should_evict_pod, is_unmanaged}
use kangal_patch.Job.Common.{drain_timeout_of}
use kangal_patch.Job.Draining.{
  with_drain_start, drain_options, stamp_drain_start, drain_blocked, after_drain, drain_failed,
  start_drain, drain_cordoned, drain_overdue, still_draining, wait_for_drain,
}
use kangal_patch.Job.Effects.Allowed.{Allowed, SameJob, drain_begun, drained, stays, cordons}
use kangal_patch.Job.Effects.Shared.{
  patch_status-Allowed, fail_job-Allowed, retry_or_fail-Allowed, get_patch_plan-Allowed,
}

-- What listPods returns passes its test.
abbrev Lists : (Pod → Bool) → Result (List Pod) → Type 0
Lists wanted r = (pods : List Pod) → r ≡ ok pods → All (λ p. wanted p ≡ true) pods

list_pods-Allowed :
    (namespace : String) (j : PatchJob) (n : String) (wanted : Pod → Bool)
    → n ≡ j.spec.node_name
    → Sat (Allowed namespace j) (Lists wanted) (list_pods n wanted)
unfolding list_pods
list_pods-Allowed namespace j n wanted same = calls same λ got.
    Sat-on_err got (λ e _. returns (λ pods h. cc))
      (λ all _.
        returns
          (λ pods h. subst (All (λ p. wanted p ≡ true)) (ok-injective h) (keep-All wanted all)))

module _ (namespace : String) (j : PatchJob) (at : j.status.phase ≡ pending) where
  live : is_terminal j.status.phase ≡ false
  unfolding is_terminal
  live = rw at

  cordon_node-Allowed :
      (n : String) → n ≡ j.spec.node_name → Sat (Allowed namespace j) Any (cordon_node n)
  unfolding cordon_node
  cordon_node-Allowed n same = calls same λ got.
      Sat-on_err got (λ _ _. returns tt)
        λ node _.
          Sat-if node.unschedulable (λ _. returns tt)
            λ free.
              calls (cordons at free refl)
                λ patched. Sat-on_err patched (λ _ _. returns tt) (λ _ _. returns tt)

  force_delete_pod-Allowed :
      (p : Pod) → should_evict_pod p ≡ true → Sat (Allowed namespace j) Any (force_delete_pod p)
  unfolding force_delete_pod
  force_delete_pod-Allowed p h =
      calls (at, h)
        λ deleted. Sat-on_err (ignore_not_found deleted) (λ _ _. returns tt) (λ _ _. returns tt)

  refused-Allowed :
      (p : Pod) (opts : DrainOptions)
      → should_evict_pod p ≡ true
      → (e : Error) (kind : ErrorKind)
      → Sat (Allowed namespace j) Any (eviction_refused p opts e kind)
  unfolding eviction_refused
  refused-Allowed p opts h e not_found = returns tt
  refused-Allowed p opts h e too_many_requests =
      Sat-if opts.respect_pdbs (λ _. returns tt)
        λ _.
          Sat-bind (force_delete_pod-Allowed p h)
            λ deleted _. Sat-on_err deleted (λ _ _. returns tt) (λ _ _. returns tt)
  refused-Allowed p opts h e _ = returns tt

  evict-Allowed :
      (p : Pod) (opts : DrainOptions)
      → should_evict_pod p ≡ true
      → Sat (Allowed namespace j) Any (evict p opts)
  unfolding evict
  evict-Allowed p opts h =
      calls (at, h)
        λ evicted. Sat-on_err evicted (λ e _. refused-Allowed p opts h e e.kind) (λ _ _. returns tt)

  evict_all-Allowed :
      (pods : List Pod) (opts : DrainOptions) (blocked : Bool)
      → All (λ p. should_evict_pod p ≡ true) pods
      → Sat (Allowed namespace j) Any (evict_all pods opts blocked)
  unfolding evict_all
  evict_all-Allowed [] opts blocked h = returns tt
  evict_all-Allowed (p ∷ ps) opts blocked h = Sat-bind (evict-Allowed p opts h.0) λ evicted _.
      Sat-on_err evicted (λ _ _. returns tt) (λ more _. evict_all-Allowed ps opts _ h.1)

  drain_node-Allowed :
      (n : String) (opts : DrainOptions)
      → n ≡ j.spec.node_name
      → Sat (Allowed namespace j) Any (drain_node n opts)
  unfolding drain_node
  drain_node-Allowed n opts same =
      Sat-bind (list_pods-Allowed namespace j n should_evict_pod same) λ listed wanted.
        Sat-on_err listed (λ _ _. returns tt)
          λ pods e.
            Sat-if (is_empty pods) (λ _. returns tt)
              λ _.
                Sat-if (not opts.evict_unmanaged)
                  (λ _.
                    Sat-if (is_empty (keep is_unmanaged pods))
                      (λ _. evict_all-Allowed pods _ false (wanted pods e)) (λ _. returns tt))
                  (λ _. evict_all-Allowed pods _ false (wanted pods e))

module _ (namespace : String) (j : PatchJob) (at : j.status.phase ≡ pending) where
  drain_blocked-Allowed :
      (job : PatchJob) (start : ℕ) (timeout : ℤ)
      → SameJob j job
      → job.status.phase ≡ pending
      → Sat (Allowed namespace j) Any (drain_blocked j job start timeout)
  unfolding drain_blocked
  drain_blocked-Allowed job start timeout same still = calls tt λ t.
      Sat-if (ltb_ℤ timeout (sub_ℕ t start))
        (λ _. fail_job-Allowed namespace j j job _ _ (refl, refl) refl same (live namespace j at))
        λ _.
          Sat-bind
            (patch_status-Allowed namespace j j _ (refl, refl) refl same
              (stays (inl at) (still ∙ sym at)))
            λ patched _. Sat-on_err patched (λ _ _. returns tt) (λ _ _. returns tt)

  after_drain-Allowed :
      (job : PatchJob) (start : ℕ) (timeout : ℤ) (blocked : Bool)
      → SameJob j job
      → job.status.phase ≡ pending
      → Sat (Allowed namespace j) Any (after_drain j job start timeout blocked)
  unfolding after_drain
  after_drain-Allowed job start timeout blocked same still =
      Sat-if blocked (λ _. drain_blocked-Allowed job start timeout same still)
        λ _.
          Sat-bind
            (patch_status-Allowed namespace j j _ (refl, refl) refl same (drain_begun at refl))
            λ patched _. Sat-on_err patched (λ _ _. returns tt) (λ _ _. returns tt)

  drain_failed-Allowed :
      (job : PatchJob) (e : Error) (kind : ErrorKind)
      → SameJob j job
      → Sat (Allowed namespace j) Any (drain_failed j job e kind)
  unfolding drain_failed
  drain_failed-Allowed job e unmanaged_pods same =
      fail_job-Allowed namespace j j job _ e (refl, refl) refl same (live namespace j at)
  drain_failed-Allowed job e _ same =
      retry_or_fail-Allowed namespace j j job _ e (refl, refl) refl same (live namespace j at)

  cordoned_drain-Allowed :
      (plan : PatchPlan) (job : PatchJob) (start : ℕ)
      → SameJob j job
      → job.status.phase ≡ pending
      → Sat (Allowed namespace j) Any (drain_cordoned j plan (job, start))
  unfolding drain_cordoned
  cordoned_drain-Allowed plan job start same still =
      Sat-bind (drain_node-Allowed namespace j at j.spec.node_name (drain_options plan) refl)
        λ drained _.
          Sat-on_err drained (λ e _. drain_failed-Allowed job e e.kind same)
            λ blocked _. after_drain-Allowed job start (drain_timeout_of plan) blocked same still

  stamp-Allowed :
      (plan : PatchPlan) (began : Option ℕ)
      → Sat (Allowed namespace j) Any (stamp_drain_start j began >>= drain_cordoned j plan)
  unfolding stamp_drain_start
  stamp-Allowed plan none =
      calls tt λ t. cordoned_drain-Allowed plan (with_drain_start t j) t (refl, refl) at
  stamp-Allowed plan (some start) = cordoned_drain-Allowed plan j start (refl, refl) at

  pub start_drain-Allowed : Sat (Allowed namespace j) Any (start_drain j)
  unfolding start_drain
  start_drain-Allowed =
      let alive = live namespace j at in
      Sat-bind (get_patch_plan-Allowed namespace j j (refl, refl)) λ got _.
        Sat-on_err got
          (λ e _. retry_or_fail-Allowed namespace j j j _ e (refl, refl) refl (refl, refl) alive)
          λ plan _. Sat-bind (cordon_node-Allowed namespace j at j.spec.node_name refl) λ cordon _.
            Sat-on_err cordon
              (λ e _.
                retry_or_fail-Allowed namespace j j j _ e (refl, refl) refl (refl, refl) alive)
              λ _ _. stamp-Allowed plan j.status.drain_start_time

is_drained-Allowed :
    (namespace : String) (j : PatchJob)
    → Sat (Allowed namespace j) Any (is_drained j.spec.node_name)
unfolding is_drained
is_drained-Allowed namespace j =
    Sat-bind (list_pods-Allowed namespace j j.spec.node_name blocks_drain refl)
      λ listed _. Sat-on_err listed (λ _ _. returns tt) (λ _ _. returns tt)

module _ (namespace : String) (j : PatchJob) (at : j.status.phase ≡ draining) where
  draining_live : is_terminal j.status.phase ≡ false
  unfolding is_terminal
  draining_live = rw at

  overdue-Allowed :
      (plan : PatchPlan) (began : Option ℕ)
      → Sat (Allowed namespace j) Any (drain_overdue j plan began)
  unfolding drain_overdue
  overdue-Allowed plan none = returns tt
  overdue-Allowed plan (some start) = calls tt λ t.
      Sat-if (ltb_ℤ (drain_timeout_of plan) (sub_ℕ t start))
        (λ _. fail_job-Allowed namespace j j j _ _ (refl, refl) refl (refl, refl) draining_live)
        (λ _. returns tt)

  still_draining-Allowed : Sat (Allowed namespace j) Any (still_draining j)
  unfolding still_draining
  still_draining-Allowed = Sat-bind (get_patch_plan-Allowed namespace j j (refl, refl)) λ got _.
      Sat-on_err got
        (λ e _.
          retry_or_fail-Allowed namespace j j j _ e (refl, refl) refl (refl, refl) draining_live)
        λ plan _. overdue-Allowed plan j.status.drain_start_time

  pub wait_for_drain-Allowed : Sat (Allowed namespace j) Any (wait_for_drain j)
  unfolding wait_for_drain
  wait_for_drain-Allowed = Sat-bind (is_drained-Allowed namespace j) λ checked _.
      Sat-on_err checked
        (λ e _.
          retry_or_fail-Allowed namespace j j j _ e (refl, refl) refl (refl, refl) draining_live)
        λ gone _.
          Sat-if (not gone) (λ _. still_draining-Allowed)
            λ _.
              Sat-bind
                (patch_status-Allowed namespace j j _ (refl, refl) refl (refl, refl)
                  (drained at refl))
                λ patched _. Sat-on_err patched (λ _ _. returns tt) (λ _ _. returns tt)
