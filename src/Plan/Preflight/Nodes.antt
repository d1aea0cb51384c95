-- ===== src/Plan/Preflight/Nodes.antt =====
-- controllers/preflight.go: what the Talos API says of the nodes. The source asks up to ten nodes at
-- once, here they are asked one after another; their answers are put in the order of the nodes there
-- too.
use kangal_patch.Prelude.{
  ℕ, suc, ◌==◌, Bool, true, false, not, ◌&&◌, String, List, [], ◌∷◌, same, is_blank, join, show_nat,
  length, if◌then◌else◌,
}
use kangal_patch.Api.Kube.{Node, Result, ok, err}
use kangal_patch.Api.Plan.{PatchPlan, TargetSpec}
use kangal_patch.Effect.Request.{
  Client, check_connection, close_talos_client, talos_version, talos_schematic_id,
}
use kangal_patch.Effect.Prog.{Prog, ret, ask, ◌>>=◌, on_err}
use kangal_patch.NodeUtil.{get_node_internal_ip}
use kangal_patch.Talos.{open_talos}
use kangal_patch.Plan.Preflight.Report.{PreflightResult, fail, pass}

-- nodeProbe.
pub record NodeProbe : Type 0 where
  pub node : String
  pub version : String
  pub kubernetes_version : String
  pub schematic_id : String

unfoldable pub probe_schematic : Client → String → NodeProbe → Bool → Prog (Result NodeProbe)
probe_schematic client address probe false = ret (ok probe)
probe_schematic client address probe true = do
  got ← ask (talos_schematic_id client address)
  on_err got (λ e. ret (err e)) λ id. ret (ok (record probe { schematic_id = id }))

-- probeNode.
unfoldable pub probe_node : Client → Node → Bool → Prog (Result NodeProbe)
probe_node client node need_schematic =
    on_err (get_node_internal_ip node) (λ e. ret (err e))
      λ address. do
        got ← ask (talos_version client address)
        on_err got (λ e. ret (err e))
            λ version.
              probe_schematic client address
                (record {
                  node = node.name;
                  version = version;
                  kubernetes_version = node.kubelet_version;
                  schematic_id = "";
                })
                need_schematic

-- The outcome of each node.
unfoldable pub probe_all : Client → Bool → List Node → Prog (List (String × Result NodeProbe))
probe_all client need_schematic [] = ret []
probe_all client need_schematic (n ∷ ns) = do
  probe ← probe_node client n need_schematic
  rest ← probe_all client need_schematic ns
  ret ((n.name, probe) ∷ rest)

-- What the loop over the outcomes has gathered.
pub record Probed : Type 0 where
  pub probes : List NodeProbe
  pub unreachable : ℕ
  pub report : PreflightResult

abbrev add_probe : NodeProbe → Probed → Probed
add_probe p s = record s { probes = p ∷ s.probes }

unfoldable pub gather : PreflightResult → List (String × Result NodeProbe) → Probed
gather res [] = record { probes = []; unreachable = 0; report = res }
gather res ((name, ok probe) ∷ rest) = add_probe probe (gather res rest)
gather res ((name, err e) ∷ rest) =
    let more =
      gather
        (fail "NodeUnreachable"
          ("node " ∷ name ∷ " is not reachable via the Talos API: " ∷ e.text ∷ []) res)
        rest in
    record more { unreachable = suc more.unreachable }

abbrev all_reachable : Probed → List NodeProbe × PreflightResult
all_reachable s = (
  s.probes,
  if s.unreachable == 0
      then pass ("all " ∷ show_nat (length s.probes) ∷ " node(s) reachable via the Talos API" ∷ [])
          s.report
      else s.report,
)

unfoldable pub needs_schematic : TargetSpec → Bool
needs_schematic t = not (is_blank t.talos_version) && same t.source "factory"

-- checkTalosNodes between the opening of the client and its close.
unfoldable pub probe_nodes :
    PatchPlan → List Node → PreflightResult → Client → Prog (List NodeProbe × PreflightResult)
unfolding gather
probe_nodes plan nodes res client = do
  connected ← ask (check_connection client)
  on_err connected (λ e. ret ([], fail "TalosCredentialsInvalid" (e.text ∷ []) res))
      λ _. do
        outcomes ← probe_all client (needs_schematic plan.spec.target) nodes
        ret (
            all_reachable (
              gather
                (pass
                  ("Talos credentials accepted by endpoints "
                    ∷ join ", " plan.spec.talos_config.endpoints
                    ∷ [])
                  res)
                outcomes))

-- checkTalosNodes.
unfoldable pub check_talos_nodes :
    String → PatchPlan → List Node → PreflightResult → Prog (List NodeProbe × PreflightResult)
check_talos_nodes namespace plan nodes res = do
  opened ← open_talos namespace plan
  on_err opened (λ e. ret ([], fail "TalosCredentialsInvalid" (e.text ∷ []) res))
      λ client. do
        answer ← probe_nodes plan nodes res client
        _ ← ask (close_talos_client client)
        ret answer
