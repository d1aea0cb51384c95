-- ===== src/Plan/Creation/Templates.antt =====
-- controllers/autoupdate.go: a template creates no job of its own.
use kangal_patch.Prelude.{
  ℕ, ℤ, pos, refl, ltb_ℤ, sub_ℕ, ◌-ℤ◌, false, String, List, [], ◌∷◌, Option, none, some, is_empty,
}
use kangal_patch.Api.Kube.{Node}
use kangal_patch.Api.Plan.{PatchPlan, PatchPhase, AutoUpdateSpec, AutoUpdateStatus}
use kangal_patch.Effect.Sat.{Sat, returns, calls, Sat-bind, Sat-if, Sat-on_err, Any}
use kangal_patch.Libs.{Libs}
use kangal_patch.Release.{Release, Selection}
use kangal_patch.Effect.Request.{Client}
use kangal_patch.Scheduling.{resolve, rollout_nodes}
use kangal_patch.Plan.AutoUpdate.Template.{
  template_unchanged, update_template_status, create_child_plan,
}
use kangal_patch.Plan.AutoUpdate.Check.{
  lower_of, lowest_of, lowest_talos_version, choose_release, check_for_release,
}
use kangal_patch.Plan.AutoUpdate.Reconcile.{
  has_prefix, waiting_message_prefix, is_watching, watch, wait_for_check, record_check,
  apply_selection, run_check, check_when_due, after_children, reconcile_auto_update,
}
use kangal_patch.Plan.Creation.Starts.{creation_of}
use kangal_patch.Plan.Creation.Kept.{CreatesNothing}
use kangal_patch.Plan.Creation.Steady.{update_status-Sat}
use kangal_patch.Plan.Creation.Before.{list_matching_nodes-Sat}
use kangal_patch.Plan.Creation.Preflight.{open_talos-Sat, probe_node-Sat}

update_template_status-Sat :
    (p : PatchPlan) (phase : PatchPhase) (message : String) (auto : AutoUpdateStatus)
    → Sat CreatesNothing Any (update_template_status p phase message auto)
unfolding update_template_status
update_template_status-Sat p phase message auto =
    Sat-if (template_unchanged p.status phase message auto) (λ _. returns tt)
      (λ _. update_status-Sat p p _)

create_child_plan-Sat :
    (p : PatchPlan) (version : String) → Sat CreatesNothing Any (create_child_plan p version)
unfolding create_child_plan creation_of
create_child_plan-Sat p version = calls refl λ x.
    Sat-on_err x (λ _ _. returns tt)
      λ _ _. calls refl λ y. Sat-on_err y (λ _ _. returns tt) (λ _ _. returns tt)

module _ (lib : Libs) where
  lowest_of-Sat :
      (c : Client) (lowest : Option lib.Version) (ns : List Node)
      → Sat CreatesNothing Any (lowest_of lib c lowest ns)
  unfolding lowest_of
  lowest_of-Sat c lowest [] = returns tt
  lowest_of-Sat c lowest (n ∷ ns) = Sat-bind (probe_node-Sat c n false) λ x _.
      Sat-on_err x (λ _ _. returns tt)
        λ probe _.
          Sat-on_err (lib.parse_semantic probe.version) (λ _ _. returns tt)
            (λ v _. lowest_of-Sat c (some (lower_of lib lowest v)) ns)

  lowest_talos_version-Sat :
      (namespace : String) (p : PatchPlan) (ns : List Node)
      → Sat CreatesNothing Any (lowest_talos_version lib namespace p ns)
  unfolding lowest_talos_version creation_of
  lowest_talos_version-Sat namespace p ns = Sat-bind (open_talos-Sat namespace p) λ x _.
      Sat-on_err x (λ _ _. returns tt)
        λ c _. Sat-bind (lowest_of-Sat c none ns) (λ _ _. calls refl (λ _. returns tt))

  choose_release-Sat :
      (spec : AutoUpdateSpec) (current : lib.Version)
      → Sat CreatesNothing Any (choose_release lib spec current)
  unfolding choose_release creation_of
  choose_release-Sat spec current =
      calls refl λ x. Sat-on_err x (λ _ _. returns tt) (λ _ _. calls refl (λ _. returns tt))

  check_for_release-Sat :
      (namespace : String) (p : PatchPlan) (spec : AutoUpdateSpec)
      → Sat CreatesNothing Any (check_for_release lib namespace p spec)
  unfolding check_for_release
  check_for_release-Sat namespace p spec =
      Sat-bind (list_matching_nodes-Sat _ p.spec.node_selector) λ x _.
        Sat-on_err x (λ _ _. returns tt)
          λ nodes _.
            Sat-on_err (resolve lib nodes p.spec) (λ _ _. returns tt)
              λ rollout _.
                Sat-if (is_empty (rollout_nodes rollout)) (λ _. returns tt)
                  λ _.
                    Sat-bind (lowest_talos_version-Sat namespace p (rollout_nodes rollout))
                      λ y _. Sat-on_err y (λ _ _. returns tt) (λ v _. choose_release-Sat spec v)

  record_check-Sat :
      (p : PatchPlan) (interval : ℤ) (current : lib.Version) (result : Selection lib)
      (created message : String)
      → Sat CreatesNothing Any (record_check lib p interval current result created message)
  unfolding record_check creation_of
  record_check-Sat p interval current result created message =
      calls refl λ t. Sat-bind (update_template_status-Sat p _ message _) (λ _ _. returns tt)

  apply_selection-Sat :
      (p : PatchPlan) (spec : AutoUpdateSpec) (interval : ℤ) (current : lib.Version)
      (result : Selection lib) (o : Option (Release lib))
      → Sat CreatesNothing Any (apply_selection lib p spec interval current result o)
  unfolding apply_selection
  apply_selection-Sat p spec interval current result none =
      record_check-Sat p interval current result _ _
  apply_selection-Sat p spec interval current result (some r) =
      Sat-bind (create_child_plan-Sat p _) λ x _.
        Sat-on_err x (λ _ _. returns tt) (λ child _. record_check-Sat p interval current result _ _)

  run_check-Sat :
      (namespace : String) (p : PatchPlan) (spec : AutoUpdateSpec) (interval : ℤ)
      → Sat CreatesNothing Any (run_check lib namespace p spec interval)
  unfolding run_check
  run_check-Sat namespace p spec interval = Sat-bind (check_for_release-Sat namespace p spec) λ x _.
      Sat-on_err x (λ e _. Sat-bind (update_template_status-Sat p _ _ _) (λ _ _. returns tt))
        (λ found _. apply_selection-Sat p spec interval found.0 found.1 _)

  wait_for_check-Sat :
      (p : PatchPlan) (interval : ℤ) (last : ℕ) (wait : ℤ)
      → Sat CreatesNothing Any (wait_for_check p interval last wait)
  unfolding wait_for_check
  wait_for_check-Sat p interval last wait =
      Sat-if (has_prefix p.status.message waiting_message_prefix)
        (λ _. Sat-bind (update_template_status-Sat p _ _ _) (λ _ _. returns tt)) (λ _. returns tt)

  check_when_due-Sat :
      (namespace : String) (p : PatchPlan) (spec : AutoUpdateSpec) (interval : ℤ) (o : Option ℕ)
      → Sat CreatesNothing Any (check_when_due lib namespace p spec interval o)
  unfolding check_when_due creation_of
  check_when_due-Sat namespace p spec interval none = run_check-Sat namespace p spec interval
  check_when_due-Sat namespace p spec interval (some last) = calls refl λ t.
      Sat-if (ltb_ℤ (pos 0) (interval -ℤ sub_ℕ t last)) (λ _. wait_for_check-Sat p interval last _)
        (λ _. run_check-Sat namespace p spec interval)

  after_children-Sat :
      (namespace : String) (p : PatchPlan) (spec : AutoUpdateSpec) (interval : ℤ)
      (o : Option PatchPlan)
      → Sat CreatesNothing Any (after_children lib namespace p spec interval o)
  unfolding after_children
  after_children-Sat namespace p spec interval none = check_when_due-Sat namespace p spec interval _
  after_children-Sat namespace p spec interval (some child) =
      Sat-bind (update_template_status-Sat p _ _ _) (λ _ _. returns tt)

  watch-Sat : (p : PatchPlan) → Sat CreatesNothing Any (watch p)
  unfolding watch
  watch-Sat p =
      Sat-if (is_watching p.status.phase) (λ _. returns tt)
        (λ _. update_template_status-Sat p _ _ _)

  pub reconcile_auto_update-Sat :
      (namespace : String) (p : PatchPlan) (spec : AutoUpdateSpec)
      → Sat CreatesNothing Any (reconcile_auto_update lib namespace p spec)
  unfolding reconcile_auto_update creation_of
  reconcile_auto_update-Sat namespace p spec =
      Sat-if p.spec.cancelled
        (λ _. Sat-bind (update_template_status-Sat p _ _ _) (λ _ _. returns tt))
        λ _.
          Sat-if p.spec.paused
            (λ _. Sat-bind (update_template_status-Sat p _ _ _) (λ _ _. returns tt))
            λ _. Sat-bind (watch-Sat p) λ x _.
              Sat-on_err x (λ _ _. returns tt)
                λ p' _. calls refl λ y.
                  Sat-on_err y (λ _ _. returns tt)
                    (λ children _. after_children-Sat namespace p' spec _ _)
