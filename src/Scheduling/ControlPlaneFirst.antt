-- ===== src/Scheduling/ControlPlaneFirst.antt =====
-- internal/scheduling/scheduling.go: what CheckControlPlaneFirst promises.
use kangal_patch.Prelude.{
  ℕ, suc, ◌≤◌, ◌<◌, ◌≡◌, ◌↔◌, ◌∙◌, sym, ap, refl, Bool, true, false, not, List, [], ◌∷◌, Option,
  none, some, ltb, any, All, arith, if◌then◌else◌, Bool-cases, inl, inr,
}
use kangal_patch.Api.Kube.{Node, ok}
use kangal_patch.NodeUtil.{is_control_plane}
use kangal_patch.Scheduling.{Group, Rollout}
use kangal_patch.Scheduling.Checks.{
  Seen, lower, see_nodes, see_groups, judge, check_control_plane_first,
}

abbrev pub has_control_plane : Group → Bool
has_control_plane g = any is_control_plane g.nodes

abbrev pub has_worker : Group → Bool
has_worker g = any (λ n. not (is_control_plane n)) g.nodes

-- A group with workers schedules no control plane node, and neither does any group behind it.
abbrev pub ControlPlaneFirst : List Group → Type 0
ControlPlaneFirst [] = Unit
ControlPlaneFirst (g ∷ gs) =
    (has_worker g ≡ true → All (λ b. has_control_plane b ≡ false) (g ∷ gs)) × ControlPlaneFirst gs

lower_twice : (i : ℕ) (first : Option ℕ) → lower i (lower i first) ≡ lower i first
lower_twice i none = ground arith
lower_twice i (some k) = ground arith

see_nodes_lem :
    (i : ℕ) (ns : List Node) (last first : Option ℕ)
    → see_nodes i ns (record { last_control_plane = last; first_worker = first }) ≡ record {
      last_control_plane = if any is_control_plane ns then some i else last;
      first_worker = if any (λ n. not (is_control_plane n)) ns then lower i first else first;
    }
unfolding see_nodes
see_nodes_lem i [] last first = refl
see_nodes_lem i (n ∷ ns) last first = elim (Bool-cases (is_control_plane n)) [
  | inl e ↦ rw e (see_nodes_lem i ns (some i) first ∙ ground arith)
  | inr e ↦ rw e (see_nodes_lem i ns last (lower i first) ∙ ground (arith, lower_twice i first))
]

-- Whether `judge` accepts.
abbrev accepts : Option ℕ → Option ℕ → Bool
accepts none first = true
accepts (some l) none = true
accepts (some l) (some f) = ltb l f

judge-accepts :
    (gs : List Group) (last first : Option ℕ)
    → (judge gs last first ≡ ok tt) ↔ (accepts last first ≡ true)
unfolding judge
judge-accepts gs none first = (λ _. refl, λ _. refl)
judge-accepts gs (some l) none = (λ _. refl, λ _. refl)
judge-accepts gs (some l) (some f) = (λ h. ground arith, λ h. ground arith)

-- What the loops find from a point on, and whether it is accepted.
abbrev accepted : ℕ → List Group → Option ℕ → Option ℕ → Bool
accepted i gs last first =
    let seen = see_groups i gs (record { last_control_plane = last; first_worker = first }) in
    accepts seen.last_control_plane seen.first_worker

accepted-cons :
    (i : ℕ) (g : Group) (gs : List Group) (last first : Option ℕ)
    → accepted i (g ∷ gs) last first
      ≡ accepted
          (suc i)
          gs
          (if has_control_plane g then some i else last)
          (if has_worker g then lower i first else first)
unfolding see_groups
accepted-cons i g gs last first =
    ap
      (λ (s : Seen).
        accepts (see_groups (suc i) gs s).last_control_plane (see_groups (suc i) gs s).first_worker)
      (see_nodes_lem i g.nodes last first)

abbrev NoControlPlane : List Group → Type 0
NoControlPlane = All (λ b. has_control_plane b ≡ false)

differ : {b : Bool} → b ≡ true → b ≡ false → ⊥
differ e f = cc

-- Behind a worker, which was seen in group `k`.
behind_worker :
    (i k : ℕ) (gs : List Group) (last : Option ℕ)
    → k ≤ i
    → (accepted i gs last (some k) ≡ true) ↔ ((accepts last (some k) ≡ true) × NoControlPlane gs)
unfolding see_groups
behind_worker i k [] last h = (λ e. (e, tt), λ e. e.0)
behind_worker i k (g ∷ gs) last h = elim (Bool-cases (has_control_plane g)) [
  | inl e ↦
      let same = next ∙ ap (λ b. accepted (suc i) gs (if b then some i else last) (some k)) e in
      let rest = behind_worker (suc i) k gs (some i) (omega arith) in
      (λ a. absurd (not_below (rest.0 (sym same ∙ a)).0), λ p. absurd (differ e p.1.0))
  | inr e ↦
      let same = next ∙ ap (λ b. accepted (suc i) gs (if b then some i else last) (some k)) e in
      let rest = behind_worker (suc i) k gs last (omega arith) in
      (
        λ a. let found = rest.0 (sym same ∙ a) in (found.0, (e, found.1)),
        λ p. same ∙ rest.1 (p.0, p.1.1),
      )
]
  where
    kept : (b : Bool) → (if b then lower i (some k) else some k) ≡ some k
    kept b = ground arith

    next :
        accepted i (g ∷ gs) last (some k)
        ≡ accepted (suc i) gs (if has_control_plane g then some i else last) (some k)
    next =
        accepted-cons i g gs last (some k)
        ∙ ap (accepted (suc i) gs (if has_control_plane g then some i else last))
            (kept (has_worker g))

    not_below : ltb i k ≡ true → ⊥
    not_below e = ground arith

NoControlPlane-ControlPlaneFirst : (gs : List Group) → NoControlPlane gs → ControlPlaneFirst gs
NoControlPlane-ControlPlaneFirst [] h = tt
NoControlPlane-ControlPlaneFirst (g ∷ gs) h = (λ _. h, NoControlPlane-ControlPlaneFirst gs h.1)

abbrev Below : ℕ → Option ℕ → Type 0
Below i none = Unit
Below i (some l) = l < i

before_worker :
    (i : ℕ) (gs : List Group) (last : Option ℕ)
    → Below i last
    → (accepted i gs last none ≡ true) ↔ ControlPlaneFirst gs
unfolding see_groups
before_worker i [] none h = (λ _. tt, λ _. refl)
before_worker i [] (some l) h = (λ _. tt, λ _. refl)
before_worker i (g ∷ gs) last h = elim (Bool-cases (has_worker g)) [
  | inl e ↦
      let same =
        accepted-cons i g gs last none
        ∙ ap (λ b. accepted (suc i) gs shown (if b then some i else none)) e in
      let rest = behind_worker (suc i) i gs shown (omega arith) in
      (
        λ a.
            let found = rest.0 (sym same ∙ a) in
            let none_here = no_mix (has_control_plane g) last h found.0 in
            (λ _. (none_here, found.1), NoControlPlane-ControlPlaneFirst gs found.1),
        λ p. same ∙ rest.1 (unmixed (has_control_plane g) last h (p.0 e).0, (p.0 e).1),
      )
  | inr e ↦
      let same =
        accepted-cons i g gs last none
        ∙ ap (λ b. accepted (suc i) gs shown (if b then some i else none)) e in
      let rest = before_worker (suc i) gs shown (shown-Below (has_control_plane g) last h) in
      (λ a. (λ w. absurd (differ w e), rest.0 (sym same ∙ a)), λ p. same ∙ rest.1 p.1)
]
  where
    shown : Option ℕ
    shown = if has_control_plane g then some i else last

    shown-Below : (b : Bool) (l : Option ℕ) → Below i l → Below (suc i) (if b then some i else l)
    shown-Below true l q = omega arith
    shown-Below false none q = tt
    shown-Below false (some l) q = omega arith

    no_mix :
        (b : Bool) (l : Option ℕ)
        → Below i l
        → accepts (if b then some i else l) (some i) ≡ true
        → b ≡ false
    no_mix true l q a = absurd (ground arith)
    no_mix false l q a = refl

    unmixed :
        (b : Bool) (l : Option ℕ)
        → Below i l
        → b ≡ false
        → accepts (if b then some i else l) (some i) ≡ true
    unmixed true l q e = cc
    unmixed false none q e = refl
    unmixed false (some l) q e = ground arith

-- The check passes exactly when no group with a worker stands at or before a group with a control
-- plane node.
pub check_control_plane_first-ok :
    (r : Rollout) → (check_control_plane_first r ≡ ok tt) ↔ ControlPlaneFirst r.groups
unfolding check_control_plane_first
check_control_plane_first-ok r =
    let to = judge-accepts r.groups _ _ in
    let all = before_worker 0 r.groups none tt in (λ e. all.0 (to.0 e), λ e. to.1 (all.1 e))
