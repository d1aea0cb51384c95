-- ===== src/Plan/Creation/Preflight.antt =====
-- controllers/preflight.go: the preflight checks create no job and keep the plan.
use kangal_patch.Prelude.{
  ℕ, refl, ◌||◌, Bool, true, false, not, String, List, [], ◌∷◌, Dict, is_blank, is_empty,
}
use kangal_patch.Api.Kube.{Node, Result, ok, err}
use kangal_patch.Api.Plan.{PatchPlan, TargetSpec}
use kangal_patch.Api.Job.{PatchJob}
use kangal_patch.Effect.Request.{Client}
use kangal_patch.Effect.Sat.{Sat, returns, calls, Sat-bind, Sat-if, Sat-on_err, Any}
use kangal_patch.Libs.{Libs}
use kangal_patch.NodeUtil.{get_node_internal_ip}
use kangal_patch.Scheduling.{Rollout, resolve, rollout_nodes, control_plane_nodes}
use kangal_patch.Talos.{open_talos}
use kangal_patch.Job.Recovery.Reads.{resolve_talos_config-Sat}
use kangal_patch.Plan.Preflight.Report.{PreflightResult}
use kangal_patch.Plan.Preflight.Order.{check_api_server_skew, check_kubernetes_api}
use kangal_patch.Plan.Preflight.Conflicts.{passes_by, check_plans, check_conflicting_plans}
use kangal_patch.Plan.Preflight.Nodes.{
  NodeProbe, probe_schematic, probe_node, probe_all, probe_nodes, check_talos_nodes,
}
use kangal_patch.Plan.Preflight.Targets.{
  check_installers, check_talos_images, check_images, check_kubernetes_images, Installers,
  report_installers,
}
use kangal_patch.Plan.Preflight.Run.{
  is_fresh, already_passed, record_result, mark_preflighting, check_world, run_preflight,
  ensure_preflight,
}
use kangal_patch.Plan.Policy.{Stop, then_say}
use kangal_patch.Plan.Creation.Starts.{creation_of}
use kangal_patch.Plan.Creation.Kept.{CreatesNothing}
use kangal_patch.Plan.Creation.Before.{list_matching_nodes-Sat}
use kangal_patch.Plan.Creation.Steady.{Steady, IfOk, ok-IfOk, err-IfOk, update_status-Steady}

pub open_talos-Sat :
    (namespace : String) (plan : PatchPlan) → Sat CreatesNothing Any (open_talos namespace plan)
unfolding open_talos creation_of
open_talos-Sat namespace plan =
    Sat-bind (resolve_talos_config-Sat (λ _ _. refl) namespace plan) λ x _.
      Sat-on_err x (λ _ _. returns tt)
        λ c _. calls refl λ y. Sat-on_err y (λ _ _. returns tt) (λ _ _. returns tt)

probe_schematic-Sat :
    (c : Client) (a : String) (p : NodeProbe) (needed : Bool)
    → Sat CreatesNothing Any (probe_schematic c a p needed)
unfolding probe_schematic creation_of
probe_schematic-Sat c a p false = returns tt
probe_schematic-Sat c a p true =
    calls refl λ x. Sat-on_err x (λ _ _. returns tt) (λ _ _. returns tt)

pub probe_node-Sat :
    (c : Client) (n : Node) (needed : Bool) → Sat CreatesNothing Any (probe_node c n needed)
unfolding probe_node creation_of
probe_node-Sat c n needed =
    Sat-on_err (get_node_internal_ip n) (λ _ _. returns tt)
      λ a _.
        calls refl λ x. Sat-on_err x (λ _ _. returns tt) (λ v _. probe_schematic-Sat c a _ needed)

probe_all-Sat :
    (c : Client) (needed : Bool) (ns : List Node) → Sat CreatesNothing Any (probe_all c needed ns)
unfolding probe_all
probe_all-Sat c needed [] = returns tt
probe_all-Sat c needed (n ∷ ns) =
    Sat-bind (probe_node-Sat c n needed)
      λ _ _. Sat-bind (probe_all-Sat c needed ns) (λ _ _. returns tt)

probe_nodes-Sat :
    (plan : PatchPlan) (ns : List Node) (res : PreflightResult) (c : Client)
    → Sat CreatesNothing Any (probe_nodes plan ns res c)
unfolding probe_nodes creation_of
probe_nodes-Sat plan ns res c =
    calls refl λ x.
      Sat-on_err x (λ _ _. returns tt) λ _ _. Sat-bind (probe_all-Sat c _ ns) (λ _ _. returns tt)

check_talos_nodes-Sat :
    (namespace : String) (plan : PatchPlan) (ns : List Node) (res : PreflightResult)
    → Sat CreatesNothing Any (check_talos_nodes namespace plan ns res)
unfolding check_talos_nodes creation_of
check_talos_nodes-Sat namespace plan ns res = Sat-bind (open_talos-Sat namespace plan) λ x _.
    Sat-on_err x (λ _ _. returns tt)
      λ c _. Sat-bind (probe_nodes-Sat plan ns res c) (λ _ _. calls refl (λ _. returns tt))

check_plans-Sat :
    (lib : Libs) (plan : PatchPlan) (mine : List String) (others : List PatchPlan)
    (state : ℕ × PreflightResult)
    → Sat CreatesNothing Any (check_plans lib plan mine others state)
unfolding check_plans
check_plans-Sat lib plan mine [] state = returns tt
check_plans-Sat lib plan mine (o ∷ os) state =
    Sat-if (passes_by o plan) (λ _. check_plans-Sat lib plan mine os state)
      λ _. Sat-bind (list_matching_nodes-Sat _ o.spec.node_selector) λ x _.
        Sat-on_err x (λ _ _. returns tt)
          λ nodes _.
            Sat-on_err (resolve lib nodes o.spec) (λ _ _. check_plans-Sat lib plan mine os state)
              (λ _ _. check_plans-Sat lib plan mine os _)

check_conflicting_plans-Sat :
    (lib : Libs) (plan : PatchPlan) (ns : List Node) (res : PreflightResult)
    → Sat CreatesNothing Any (check_conflicting_plans lib plan ns res)
unfolding check_conflicting_plans creation_of
check_conflicting_plans-Sat lib plan ns res = calls refl λ x.
    Sat-on_err x (λ _ _. returns tt)
      λ plans _.
        Sat-bind (check_plans-Sat lib plan _ plans _)
          λ y _. Sat-on_err y (λ _ _. returns tt) (λ _ _. returns tt)

check_installers-Sat :
    (images : Dict (List String)) (names : List String) (res : PreflightResult)
    → Sat CreatesNothing Any (check_installers images names res)
unfolding check_installers creation_of
check_installers-Sat images [] res = returns tt
check_installers-Sat images (i ∷ is) res = calls refl (λ _. check_installers-Sat images is _)

report_installers-Sat :
    (target : TargetSpec) (s : Installers) → Sat CreatesNothing Any (report_installers target s)
unfolding report_installers
report_installers-Sat target s =
    Sat-if (not (is_empty s.images)) (λ _. check_installers-Sat s.images _ s.report)
      (λ _. Sat-if s.invalid (λ _. returns tt) (λ _. returns tt))

check_talos_images-Sat :
    (target : TargetSpec) (probes : List NodeProbe) (res : PreflightResult)
    → Sat CreatesNothing Any (check_talos_images target probes res)
unfolding check_talos_images
check_talos_images-Sat target probes res =
    Sat-if (is_blank target.talos_version) (λ _. returns tt) (λ _. report_installers-Sat target _)

check_images-Sat :
    (images : List String) (res : PreflightResult)
    → Sat CreatesNothing Any (check_images images res)
unfolding check_images creation_of
check_images-Sat [] res = returns tt
check_images-Sat (i ∷ is) res = calls refl (λ _. check_images-Sat is _)

check_kubernetes_images-Sat :
    (target : TargetSpec) (res : PreflightResult)
    → Sat CreatesNothing Any (check_kubernetes_images target res)
unfolding check_kubernetes_images
check_kubernetes_images-Sat target res =
    Sat-if (is_blank target.kubernetes_version) (λ _. returns tt) (λ _. check_images-Sat _ res)

check_api_server_skew-Sat :
    (lib : Libs) (discovery : Bool) (target : TargetSpec) (rollout : Rollout)
    (res : PreflightResult)
    → Sat CreatesNothing Any (check_api_server_skew lib discovery target rollout res)
unfolding check_api_server_skew creation_of
check_api_server_skew-Sat lib discovery target rollout res =
    Sat-if
      (is_blank target.kubernetes_version
        || (not discovery || not (is_empty (control_plane_nodes rollout))))
      (λ _. returns tt) (λ _. calls refl (λ _. returns tt))

check_kubernetes_api-Sat :
    (discovery : Bool) (res : PreflightResult)
    → Sat CreatesNothing Any (check_kubernetes_api discovery res)
unfolding check_kubernetes_api creation_of
check_kubernetes_api-Sat discovery res =
    Sat-if (not discovery) (λ _. returns tt) (λ _. calls refl (λ _. returns tt))

module _ (lib : Libs) (namespace : String) (discovery : Bool) (plan : PatchPlan) where
  check_world-Sat :
      (p : PatchPlan) (ns : List Node) (res : PreflightResult)
      → Sat CreatesNothing Any (check_world lib namespace discovery p ns res)
  unfolding check_world
  check_world-Sat p ns res = Sat-bind (check_kubernetes_api-Sat discovery res) λ ready _.
      Sat-bind (check_talos_nodes-Sat namespace p ns ready) λ probed _.
        Sat-bind (check_talos_images-Sat p.spec.target probed.0 _) λ installers _.
          Sat-bind (check_kubernetes_images-Sat p.spec.target installers) (λ _ _. returns tt)

  run_preflight-Sat :
      (p : PatchPlan) (rollout : Rollout)
      → Sat CreatesNothing Any (run_preflight lib namespace discovery p rollout)
  unfolding run_preflight
  run_preflight-Sat p rollout =
      Sat-if (is_empty (rollout_nodes rollout)) (λ _. returns tt)
        λ _. Sat-bind (check_api_server_skew-Sat lib discovery p.spec.target rollout _) λ skewed _.
          Sat-bind (check_conflicting_plans-Sat lib p (rollout_nodes rollout) _) λ x _.
            Sat-on_err x (λ _ _. returns tt)
              (λ res _. check_world-Sat p (rollout_nodes rollout) res)

  -- Whether the checks passed or not, the plan is kept.
  abbrev pub Checked : Result Stop → Type 0
  Checked r = IfOk (λ (s : Stop). Steady plan s.1) r

  said : (b : Bool) (r : Result PatchPlan) → IfOk (Steady plan) r → Checked (then_say b r)
  unfolding then_say
  said b (ok q) h = ok-IfOk _ _ (h q refl)
  said b (err e) h = err-IfOk _ e

  mark_preflighting-Steady :
      (p : PatchPlan)
      → Steady plan p
      → Sat CreatesNothing (IfOk (Steady plan)) (mark_preflighting p)
  unfolding mark_preflighting
  mark_preflighting-Steady p steady =
      Sat-if (is_fresh p.status.phase) (λ _. update_status-Steady plan p _ steady refl refl)
        (λ _. returns (ok-IfOk _ p steady))

  record_result-GoesOn :
      (p : PatchPlan) (res : PreflightResult)
      → Steady plan p
      → Sat CreatesNothing Checked (record_result p res)
  unfolding record_result
  record_result-GoesOn p res steady =
      Sat-bind (update_status-Steady plan p _ steady refl refl)
        (λ r h. returns (said (is_empty res.failures) r h))

  pub ensure_preflight-Checked :
      (p : PatchPlan) (rollout : Rollout) (jobs : Dict PatchJob)
      → Steady plan p
      → Sat CreatesNothing Checked (ensure_preflight lib namespace discovery p rollout jobs)
  unfolding ensure_preflight
  ensure_preflight-Checked p rollout jobs steady =
      Sat-if (not (is_empty jobs)) (λ _. returns (ok-IfOk _ _ steady))
        λ _.
          Sat-if (already_passed p p.status.preflight_condition) (λ _. returns (ok-IfOk _ _ steady))
            λ _. Sat-bind (mark_preflighting-Steady p steady) λ x h.
              Sat-on_err x (λ e _. returns (err-IfOk _ e))
                λ q is. Sat-bind (run_preflight-Sat q rollout) λ y _.
                  Sat-on_err y (λ e _. returns (err-IfOk _ e))
                    (λ res _. record_result-GoesOn q res (h q is))
