-- ===== src/Plan/Preflight/Blocked.antt =====
-- controllers/preflight.go, checkConflictingPlans: another plan whose selector is invalid.
use kangal_patch.Prelude.{
  ℕ, ◌≡◌, refl, ap, ◌∙◌, true, false, String, List, [], ◌∷◌, ◌++◌, All, some, map,
}
use kangal_patch.Api.Kube.{Node, Error, Result, ok, err, wrap}
use kangal_patch.Api.Plan.{PatchPlan}
use kangal_patch.Effect.Request.{list_all_plans}
use kangal_patch.Effect.Prog.{Prog, ret, ◌>>=◌, on_err, Handler, run}
use kangal_patch.Libs.{Libs}
use kangal_patch.NodeUtil.{list_selected, list_matching_nodes, selector_or_all}
use kangal_patch.Plan.Preflight.Report.{PreflightResult}
use kangal_patch.Plan.Preflight.Conflicts.{
  passes_by, no_conflict, check_plans, check_conflicting_plans,
}

module _ (lib : Libs) (plan other : PatchPlan) (e : Error) (blocks : passes_by other plan ≡ false)
    (invalid : lib.selector_error (selector_or_all other.spec.node_selector) ≡ some e) where
  check_plans-err :
      (mine : List String) (before after : List PatchPlan) (state : ℕ × PreflightResult)
      → All (λ o. passes_by o plan ≡ true) before
      → check_plans lib plan mine (before ++ other ∷ after) state
        ≡ ret (err (wrap "invalid nodeSelector" e))
  unfolding check_plans list_matching_nodes list_selected
  check_plans-err mine [] after state p = rw (blocks, invalid) refl
  check_plans-err mine (o ∷ os) after state p = rw (p.0) (check_plans-err mine os after state p.1)

  -- Where a plan that blocks this one, after plans that are passed by, has an invalid nodeSelector,
  -- the check for conflicting plans ends in that error, whatever nodes this plan targets.
  pub check_conflicting_plans-err :
      {W : Type 0} (world : Handler W) (w : W) (before after : List PatchPlan) (nodes : List Node)
      (res : PreflightResult)
      → (world w list_all_plans).0 ≡ ok (before ++ other ∷ after)
      → All (λ o. passes_by o plan ≡ true) before
      → (run world w (check_conflicting_plans lib plan nodes res)).0
        ≡ err (wrap "invalid nodeSelector" e)
  unfolding check_conflicting_plans run
  check_conflicting_plans-err world w before after nodes res listed passed =
      ap (λ x. (run world (world w list_all_plans).1 (conclude x)).0) listed
      ∙ ap (λ m. (run world (world w list_all_plans).1 (m >>= state_or_err)).0)
          (check_plans-err (map (λ n. n.name) nodes) before after (0, res) passed)
    where
      state_or_err : Result (ℕ × PreflightResult) → Prog (Result PreflightResult)
      state_or_err checked =
          on_err checked (λ e. ret (err e)) λ state. ret (ok (no_conflict lib state))

      conclude : Result (List PatchPlan) → Prog (Result PreflightResult)
      conclude listed =
          on_err listed (λ e. ret (err (wrap "failed to list PatchPlans" e)))
            λ plans. check_plans lib plan (map (λ n. n.name) nodes) plans (0, res) >>= state_or_err
