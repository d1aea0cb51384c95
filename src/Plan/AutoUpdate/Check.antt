-- ===== src/Plan/AutoUpdate/Check.antt =====
-- controllers/autoupdate.go: the version that the nodes run, and the release that should replace it.
use kangal_patch.Prelude.{
  ltb_ℤ, pos, false, String, List, [], ◌∷◌, Option, none, some, is_empty, concat, if◌then◌else◌,
}
use kangal_patch.Api.Kube.{Node, Result, ok, err, errorf, wrap}
use kangal_patch.Api.Plan.{PatchPlan, AutoUpdateSpec}
use kangal_patch.Effect.Request.{Client, now, close_talos_client, list_releases}
use kangal_patch.Effect.Prog.{Prog, ret, ask, ◌>>=◌, on_err}
use kangal_patch.Libs.{Libs, compare_versions}
use kangal_patch.NodeUtil.{list_matching_nodes}
use kangal_patch.Release.{Selection, stable_releases, select}
use kangal_patch.Scheduling.{resolve, rollout_nodes}
use kangal_patch.Talos.{open_talos}
use kangal_patch.Plan.Preflight.Nodes.{probe_node}

module _ (lib : Libs) where
  open lib use {Version, parse_semantic}

  -- `i == 0 || v.Compare(lowest) < 0`.
  unfoldable pub lower_of : Option Version → Version → Version
  lower_of none v = v
  lower_of (some lowest) v = if ltb_ℤ (compare_versions lib v lowest) (pos 0) then v else lowest

  unfoldable pub found_lowest : Option Version → Result Version
  found_lowest none = err (errorf "no node")
  found_lowest (some v) = ok v

  -- The loop over the nodes; the caller has checked that there is one.
  unfoldable pub lowest_of : Client → Option Version → List Node → Prog (Result Version)
  lowest_of client lowest [] = ret (found_lowest lowest)
  lowest_of client lowest (n ∷ ns) = do
    got ← probe_node client n false
    on_err got
        (λ e.
          ret
            (err (wrap (concat ("node " ∷ n.name ∷ " is not reachable via the Talos API" ∷ [])) e)))
        λ probe.
          on_err (parse_semantic probe.version)
            (λ e. ret (err (wrap (concat ("node " ∷ n.name ∷ [])) e)))
            λ v. lowest_of client (some (lower_of lowest v)) ns

  -- lowestTalosVersion.
  unfoldable pub lowest_talos_version : String → PatchPlan → List Node → Prog (Result Version)
  lowest_talos_version namespace plan nodes = do
    opened ← open_talos namespace plan
    on_err opened (λ e. ret (err e))
        λ client. do
          lowest ← lowest_of client none nodes
          _ ← ask (close_talos_client client)
          ret lowest

  unfoldable pub choose_release : AutoUpdateSpec → Version → Prog (Result (Version × Selection lib))
  choose_release spec current = do
    listed ← ask list_releases
    on_err listed (λ e. ret (err e))
        λ raw. do
          t ← ask now
          ret (
              ok (
                current,
                select lib (stable_releases lib raw) current spec.allow spec.min_release_age t,
              ))

  -- checkForRelease.
  unfoldable pub check_for_release :
      String → PatchPlan → AutoUpdateSpec → Prog (Result (Version × Selection lib))
  check_for_release namespace plan spec = do
    listed ← list_matching_nodes lib.selector_error plan.spec.node_selector
    on_err listed (λ e. ret (err e))
        λ nodes.
          on_err (resolve lib nodes plan.spec) (λ e. ret (err e))
            λ rollout.
              if is_empty (rollout_nodes rollout)
              then ret (err (errorf "nodeSelector and strategy.order matched no nodes"))
              else do
                lowest ← lowest_talos_version namespace plan (rollout_nodes rollout)
                on_err lowest (λ e. ret (err e)) λ current. choose_release spec current
