-- ===== src/NodeUtil.antt =====
-- internal/nodeutil/nodeutil.go.
use kangal_patch.Prelude.{Bool, String, List, [], ◌∷◌, Option, none, some, concat, has_key}
use kangal_patch.Api.Kube.{
  Node, NodeAddress, internal_ip, other_address, LabelSelector, Error, Result, ok, err, errorf,
  wrap,
}
use kangal_patch.Effect.Request.{list_nodes}
use kangal_patch.Effect.Prog.{Prog, ret, ask}

unfoldable pub first_internal_ip : List NodeAddress → Option String
first_internal_ip [] = none
first_internal_ip (a ∷ rest) = elim a.type [
  | internal_ip ↦ some a.address
  | other_address ↦ first_internal_ip rest
]

-- GetNodeInternalIP.
unfoldable pub get_node_internal_ip : Node → Result String
get_node_internal_ip node = elim (first_internal_ip node.addresses) [
  | some a ↦ ok a
  | none ↦ err (errorf (concat ("no InternalIP address found for node " ∷ node.name ∷ [])))
]

-- IsControlPlane: the label's presence, whatever its value.
unfoldable pub is_control_plane : Node → Bool
is_control_plane node = has_key "node-role.kubernetes.io/control-plane" node.labels

-- ListMatchingNodes. `invalid` is what metav1.LabelSelectorAsSelector says of a selector; the API
-- server applies the compiled selector, so the request carries the selector itself.
unfoldable pub list_selected : LabelSelector → Option Error → Prog (Result (List Node))
list_selected wanted (some e) = ret (err (wrap "invalid nodeSelector" e))
list_selected wanted none = ask (list_nodes wanted)

-- A selector that is not given selects every node.
abbrev pub selector_or_all : Option LabelSelector → LabelSelector
selector_or_all none = record { match_labels = []; match_expressions = [] }
selector_or_all (some s) = s

unfoldable pub list_matching_nodes :
    (LabelSelector → Option Error) → Option LabelSelector → Prog (Result (List Node))
list_matching_nodes invalid selector =
    list_selected (selector_or_all selector) (invalid (selector_or_all selector))
