-- ===== src/Scheduling/Cover.antt =====
-- internal/scheduling/scheduling.go: where the nodes of a rollout go.
use mathlib.Core.List.{
  Mem, Perm, Nodup, perm_middle, Nodup-nil, Nodup-cons, mem-cons, not-mem-nil, mem-cons_self,
  mem-cons_of_mem, append_assoc, map-append,
}
use mathlib.Core.List.Perm
use mathlib.Core.Logic.Or
use mathlib.Core.HLevel.{⊥_prop}
use mathlib.Core.Path.{fun_ext}
use kangal_patch.Prelude.{
  ◌≡◌, ◌⊎◌, refl, sym, ap, subst, ◌∙◌, inl, inr, Bool, true, false, not, ◌&&◌, ◌||◌, String, List,
  [], ◌∷◌, ◌++◌, same, same_self, same-eq, member, All-imp, length-perm, length-map, All, map, keep,
  length, Bool-cases, arith,
}
use kangal_patch.Api.Kube.{Node, ok}
use kangal_patch.Api.Plan.{PatchPlanSpec}
use kangal_patch.Libs.{Libs}
use kangal_patch.Scheduling.{
  Rollout, GroupMatcher, matches, group_nodes, rollout_nodes, resolve, unique_nodes,
}
use kangal_patch.Scheduling.Sorting.{
  Distinct, selected_nodes, selected_nodes-Distinct, sort_nodes-perm,
}
use kangal_patch.Scheduling.Assignment.{owned, first_matches, resolve-first_matches}

-- A list is what one test keeps and what it drops.
keep_split :
    (p q : Node → Bool) (ns : List Node)
    → Perm (keep (λ n. p n && q n) ns ++ keep (λ n. p n && not (q n)) ns) (keep p ns)
keep_split p q [] = Perm.refl []
keep_split p q (n ∷ ns) = elim (Bool-cases (p n)) [
  | inl e ↦ elim (Bool-cases (q n)) [
    | inl f ↦ rw (e, f) (Perm.cons n (keep_split p q ns))
    | inr f ↦ rw (e, f) (Perm.trans (perm_middle _ _) (Perm.cons n (keep_split p q ns)))
  ]
  | inr e ↦ rw e (keep_split p q ns)
]

keep-ext : {p q : Node → Bool} (ns : List Node) → ((n : Node) → p n ≡ q n) → keep p ns ≡ keep q ns
keep-ext ns h = ap (λ (r : Node → Bool). keep r ns) (fun_ext h)

not_or : (a b c : Bool) → (not a && not (b || c)) ≡ (not (b || a) && not c)
not_or a b c = ground arith

split_or : (a b : Bool) → not (b || a) ≡ (not a && not b)
split_or a b = ground arith

and_true : (a : Bool) → (not a && true) ≡ not a
and_true a = ground arith

module _ (lib : Libs) where
  first_matches-perm :
      (earlier ms : List GroupMatcher) (ns : List Node)
      → Perm
          (group_nodes (first_matches lib earlier ms ns)
            ++ keep (λ n. not (owned lib earlier n) && not (owned lib ms n)) ns)
          (keep (λ n. not (owned lib earlier n)) ns)
  unfolding group_nodes
  first_matches-perm earlier [] ns =
      rw (keep-ext ns (λ n. and_true (owned lib earlier n))) (Perm.refl _)
  first_matches-perm earlier (m ∷ ms) ns =
      let here = keep (λ n. not (owned lib earlier n) && matches lib m n) ns in
      let behind = group_nodes (first_matches lib (m ∷ earlier) ms ns) in
      rw append_assoc (
        rw (keep-ext ns λ n. not_or (owned lib earlier n) (matches lib m n) (owned lib ms n)) (
          Perm.trans (Perm.append_left here (first_matches-perm (m ∷ earlier) ms ns)) (
            rw (keep-ext ns λ n. split_or (owned lib earlier n) (matches lib m n))
              (keep_split (λ n. not (owned lib earlier n)) (matches lib m) ns))))

abbrev pub name_of : Node → String
name_of n = n.name

keep_all : (ns : List Node) → keep (λ n. true) ns ≡ ns
keep_all [] = refl
keep_all (n ∷ ns) = rw (keep_all ns)

apart-not-Mem :
    (n : Node) (ns : List Node)
    → All (λ m. same n.name m.name ≡ false) ns
    → ¬ Mem n.name (map name_of ns)
apart-not-Mem n [] h k = not-mem-nil k
apart-not-Mem n (m ∷ ms) h k =
    Or.elim ⊥_prop (mem-cons.0 k) (λ e. cc (same_self n.name, e, h.0)) (apart-not-Mem n ms h.1)

Distinct-Nodup : (ns : List Node) → Distinct ns → Nodup (map name_of ns)
Distinct-Nodup [] d = Nodup-nil
Distinct-Nodup (n ∷ ns) d = Nodup-cons.1 (apart-not-Mem n ns d.0, Distinct-Nodup ns d.1)

fresh_or_seen :
    (n : Node) (seen : List String) (rest : List Node) (m : Node)
    → (member m.name (n.name ∷ seen) ≡ true) ⊎ Mem m.name (map name_of rest)
    → (member m.name seen ≡ true) ⊎ Mem m.name (map name_of (n ∷ rest))
fresh_or_seen n seen rest m (inr k) = inr (mem-cons_of_mem _ k)
fresh_or_seen n seen rest m (inl k) = elim (Bool-cases (same n.name m.name)) [
  | inl e ↦
      inr (subst (λ x. Mem x (map name_of (n ∷ rest))) (same-eq n.name m.name e) mem-cons_self)
  | inr e ↦ inl (ground arith)
]

-- Each name of the list is one that was seen before, or the name of a node that stays.
abbrev SeenOrKept : List String → List Node → List Node → Type 0
SeenOrKept seen kept = All (λ n. (member n.name seen ≡ true) ⊎ Mem n.name (map name_of kept))

unique_nodes-again :
    (seen : List String) (n : Node) (ns : List Node)
    → member n.name seen ≡ true
    → unique_nodes seen (n ∷ ns) ≡ unique_nodes seen ns
unfolding unique_nodes
unique_nodes-again seen n ns e = rw e

unique_nodes-first :
    (seen : List String) (n : Node) (ns : List Node)
    → member n.name seen ≡ false
    → unique_nodes seen (n ∷ ns) ≡ n ∷ unique_nodes (n.name ∷ seen) ns
unfolding unique_nodes
unique_nodes-first seen n ns e = rw e

unique_nodes-Mem : (seen : List String) (ns : List Node) → SeenOrKept seen (unique_nodes seen ns) ns
unique_nodes-Mem seen [] = tt
unique_nodes-Mem seen (n ∷ ns) = elim (Bool-cases (member n.name seen)) [
  | inl e ↦
      subst (λ u. SeenOrKept seen u (n ∷ ns)) (sym (unique_nodes-again seen n ns e))
        (inl e, unique_nodes-Mem seen ns)
  | inr e ↦
      subst (λ u. SeenOrKept seen u (n ∷ ns)) (sym (unique_nodes-first seen n ns e))
        (
          inr mem-cons_self,
          All-imp _ _ ns (fresh_or_seen n seen (unique_nodes (n.name ∷ seen) ns))
              (unique_nodes-Mem (n.name ∷ seen) ns),
        )
]

-- The names of a rollout, scheduled or not.
abbrev pub names : Rollout → List String
names r = map name_of (rollout_nodes r) ++ r.unassigned

module _ (lib : Libs) where
  names-perm :
      (nodes : List Node) (spec : PatchPlanSpec) (r : Rollout)
      → resolve lib nodes spec ≡ ok r
      → Perm (names r) (map name_of (selected_nodes nodes))
  unfolding rollout_nodes
  names-perm nodes spec r h =
      let (ms, _, e) = resolve-first_matches lib nodes spec r h in
      rw e (
        rw (← map-append) (
          Perm.map name_of (
            subst (Perm _) (keep_all (selected_nodes nodes))
              (first_matches-perm lib [] ms (selected_nodes nodes)))))

  -- Every node that was listed appears in the rollout under its name, in one group or among the
  -- unassigned; no name appears twice; and `selected` counts the names.
  pub resolve-cover :
      (nodes : List Node) (spec : PatchPlanSpec) (r : Rollout)
      → resolve lib nodes spec ≡ ok r
      → Nodup (names r) × All (λ n. Mem n.name (names r)) nodes × (r.selected ≡ length (names r))
  resolve-cover nodes spec r h = (
    Perm.nodup (Perm.symm perm)
        (Distinct-Nodup (selected_nodes nodes) (selected_nodes-Distinct nodes)),
    All-imp _ _ nodes (λ n. listed n) (unique_nodes-Mem [] nodes),
    ap (λ (q : Rollout). q.selected) (resolve-first_matches lib nodes spec r h).2
        ∙ sym (length-map name_of (selected_nodes nodes))
        ∙ sym (length-perm perm),
  )
    where
      perm : Perm (names r) (map name_of (selected_nodes nodes))
      perm = names-perm nodes spec r h

      listed :
          (n : Node)
          → (false ≡ true) ⊎ Mem n.name (map name_of (unique_nodes [] nodes))
          → Mem n.name (names r)
      listed n (inl e) = cc
      listed n (inr k) =
          Perm.subset
            (Perm.trans (Perm.map name_of (Perm.symm (sort_nodes-perm (unique_nodes [] nodes))))
              (Perm.symm perm))
            n.name k
