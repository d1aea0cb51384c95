-- ===== src/Job/Recovery/Health.antt =====
-- controllers/patchjob_controller.go: what is known of a node that nodeUnhealthy finds healthy.
use kangal_patch.Prelude.{
  ◌≡◌, ◌⊎◌, refl, sym, ap, ◌∙◌, inl, inr, Bool, true, false, not, ◌&&◌, String, List, same,
  is_blank, not-true, not-false, true_apart, if◌then◌else◌, arith,
}
use kangal_patch.Api.Kube.{Node, Result, ok, ok-injective, err-ne-ok}
use kangal_patch.Api.Job.{PatchJob}
use kangal_patch.Effect.Request.{get_node}
use kangal_patch.Effect.Trace.{
  Event, Answered, Answered-Later, Trace, stops, Trace-bind, Trace-if, Trace-on_err,
}
use kangal_patch.NodeUtil.{is_control_plane}
use kangal_patch.Job.Upgrading.{is_ready, node_unhealthy}
use kangal_patch.Job.Recovery.Recovered.{Healthy, Guarded}
use kangal_patch.Job.Recovery.StaticPods.{static_pods_ready-Listed}
use kangal_patch.Job.Recovery.Shared.{Guarded-Lenient}

module _ (j : PatchJob) where
  -- The check of the node's health gives no reason only if it is healthy.
  abbrev pub Checked : String → List Event → Result String → Type 0
  Checked boot_id h r =
      (reason : String)
      → r ≡ ok reason
      → is_blank reason ≡ true
      → Healthy j.spec.node_name boot_id h

  says-Checked :
      (h : List Event) (boot_id reason : String)
      → is_blank reason ≡ false
      → Checked boot_id h (ok reason)
  says-Checked h boot_id reason filled other e blank =
      elim (true_apart (sym blank ∙ sym (ap is_blank (ok-injective e)) ∙ filled)) [ ]

  pods-Checked :
      (h : List Event) (boot_id : String) (up : Bool)
      → (up ≡ true → Healthy j.spec.node_name boot_id h)
      → Checked boot_id h (ok (if up then "" else "control plane static pods are not all ready"))
  pods-Checked h boot_id true healthy reason e blank = healthy refl
  pods-Checked h boot_id false healthy reason e blank = says-Checked h boot_id _ refl reason e blank

  other_boot : (a b : Bool) → (not a && b) ≡ false → (a ≡ true) ⊎ (b ≡ false)
  other_boot a b h = ground arith

  pub node_unhealthy-Checked :
      (h : List Event) (node : Node) (boot_id : String)
      → Answered (get_node j.spec.node_name) (ok node) h
      → Trace (Guarded j) (Checked boot_id) h (node_unhealthy node boot_id)
  unfolding node_unhealthy
  node_unhealthy-Checked h node boot_id read =
      Trace-if (not (is_blank boot_id) && same node.boot_id boot_id)
        (λ _. stops (says-Checked h boot_id _ refl))
        λ moved.
          Trace-if (not (is_ready node.conditions false))
            (λ _. stops (says-Checked h boot_id _ refl))
            λ ready.
              Trace-if (not (is_control_plane node))
                (λ worker. stops λ reason e blank. record {
                  node = node;
                  read = read;
                  rebooted = other_boot _ _ moved;
                  ready = not-false _ ready;
                  components = inl (not-true _ worker);
                })
                λ _.
                  Trace-bind (static_pods_ready-Listed _ (Guarded-Lenient j) h node.name "")
                    λ h' checked later listed.
                      Trace-on_err checked (λ e _. stops λ reason f. elim (err-ne-ok f) [ ])
                        λ up e. stops (
                          pods-Checked h' boot_id up λ f. record {
                            node = node;
                            read = Answered-Later later read;
                            rebooted = other_boot _ _ moved;
                            ready = not-false _ ready;
                            components = inr (listed (e ∙ ap ok f));
                          })
