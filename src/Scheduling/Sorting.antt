-- ===== src/Scheduling/Sorting.antt =====
-- internal/scheduling/scheduling.go: the selected nodes, once each, in the order of Resolve.
use mathlib.Core.List.{Perm}
use mathlib.Core.List.Perm
use kangal_patch.Prelude.{
  ◌≡◌, ap, inl, inr, Bool, true, false, String, List, [], ◌∷◌, member, same, same-eq, same_self,
  All, All-imp, Bool-cases, arith, if◌then◌else◌,
}
use kangal_patch.Api.Kube.{Node}
use kangal_patch.Scheduling.{unique_nodes, node_before, insert_node, sort_nodes}

pub same_comm : (s t : String) → same s t ≡ false → same t s ≡ false
same_comm s t h = elim (Bool-cases (same t s)) [
  | inl e ↦ cc (same_self s, ap (same s) (same-eq t s e), h)
  | inr e ↦ e
]

-- No two of the nodes share a name.
abbrev pub Distinct : List Node → Type 0
Distinct [] = Unit
Distinct (n ∷ ns) = All (λ m. same n.name m.name ≡ false) ns × Distinct ns

not_either : (a b : Bool) → (if a then true else b) ≡ false → (a ≡ false) × (b ≡ false)
not_either a b h = ground arith

unique_nodes-fresh :
    (seen : List String) (ns : List Node)
    → All (λ n. member n.name seen ≡ false) (unique_nodes seen ns) × Distinct (unique_nodes seen ns)
unfolding unique_nodes
unique_nodes-fresh seen [] = (tt, tt)
unique_nodes-fresh seen (n ∷ ns) = elim (Bool-cases (member n.name seen)) [
  | inl e ↦ rw e (unique_nodes-fresh seen ns)
  | inr e ↦
      let (apart, distinct) = unique_nodes-fresh (n.name ∷ seen) ns in
      rw e (
        (
          e,
          All-imp _ _ (unique_nodes (n.name ∷ seen) ns)
              (λ m h. (not_either (same n.name m.name) (member m.name seen) h).1) apart,
        ),
        (
          All-imp _ _ (unique_nodes (n.name ∷ seen) ns)
              (λ m h. (not_either (same n.name m.name) (member m.name seen) h).0) apart,
          distinct,
        ),
      )
]

module _ (P : Node → Type 0) where
  pub insert_node-All : (n : Node) (ms : List Node) → P n → All P ms → All P (insert_node n ms)
  unfolding insert_node
  insert_node-All n [] p h = (p, tt)
  insert_node-All n (m ∷ ms) p h = elim (Bool-cases (node_before n m)) [
    | inl e ↦ rw e (p, h)
    | inr e ↦ rw e (h.0, insert_node-All n ms p h.1)
  ]

insert_node-Distinct : (n : Node) (ms : List Node) → Distinct (n ∷ ms) → Distinct (insert_node n ms)
unfolding insert_node
insert_node-Distinct n [] d = d
insert_node-Distinct n (m ∷ ms) d = elim (Bool-cases (node_before n m)) [
  | inl e ↦ rw e d
  | inr e ↦ rw e (
    insert_node-All (λ k. same m.name k.name ≡ false) n ms (same_comm n.name m.name d.0.0) d.1.0,
    insert_node-Distinct n ms (d.0.1, d.1.1),
  )
]

module _ (P : Node → Type 0) where
  pub sort_nodes-All : (ns : List Node) → All P ns → All P (sort_nodes ns)
  unfolding sort_nodes
  sort_nodes-All [] h = tt
  sort_nodes-All (n ∷ ns) h = insert_node-All P n (sort_nodes ns) h.0 (sort_nodes-All ns h.1)

pub sort_nodes-Distinct : (ns : List Node) → Distinct ns → Distinct (sort_nodes ns)
unfolding sort_nodes
sort_nodes-Distinct [] d = tt
sort_nodes-Distinct (n ∷ ns) d =
    insert_node-Distinct n (sort_nodes ns)
      (sort_nodes-All (λ m. same n.name m.name ≡ false) ns d.0, sort_nodes-Distinct ns d.1)

pub insert_node-perm : (n : Node) (ms : List Node) → Perm (insert_node n ms) (n ∷ ms)
unfolding insert_node
insert_node-perm n [] = Perm.refl _
insert_node-perm n (m ∷ ms) = elim (Bool-cases (node_before n m)) [
  | inl e ↦ rw e (Perm.refl _)
  | inr e ↦ rw e (Perm.trans (Perm.cons m (insert_node-perm n ms)) (Perm.swap n m ms))
]

pub sort_nodes-perm : (ns : List Node) → Perm (sort_nodes ns) ns
unfolding sort_nodes
sort_nodes-perm [] = Perm.refl _
sort_nodes-perm (n ∷ ns) =
    Perm.trans (insert_node-perm n (sort_nodes ns)) (Perm.cons n (sort_nodes-perm ns))

-- The nodes of a rollout, before they are divided.
abbrev pub selected_nodes : List Node → List Node
selected_nodes nodes = sort_nodes (unique_nodes [] nodes)

pub selected_nodes-Distinct : (nodes : List Node) → Distinct (selected_nodes nodes)
selected_nodes-Distinct nodes = sort_nodes-Distinct _ (unique_nodes-fresh [] nodes).1
