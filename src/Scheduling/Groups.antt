-- ===== src/Scheduling/Groups.antt =====
-- internal/scheduling/scheduling.go: the matchers that compileGroups hands to Resolve.
use mathlib.Core.List.{Mem, Nodup, Nodup-nil, Nodup-cons, mem-cons, not-mem-nil}
use mathlib.Core.Logic.Or
use mathlib.Core.HLevel.{⊥_prop}
use kangal_patch.Prelude.{
  ℕ, ◌≡◌, ◌⊎◌, ◌≤◌, refl, sym, ap, subst, ◌∙◌, inl, inr, ℤ, pos, pos_part, max_ℤ, Bool, true, false,
  String, List, [], ◌∷◌, ◌++◌, Option, none, some, Dict, lookup, is_empty, member, map, All,
  Bool-cases, Option-cases, true_apart, if◌then◌else◌, arith, same, same_self,
}
use kangal_patch.Api.Kube.{LabelSelector, Error, Result, ok, err, ok-injective, err-ne-ok}
use kangal_patch.Api.Plan.{GroupSpec}
use kangal_patch.Libs.{Libs}
use kangal_patch.Scheduling.{
  GroupMatcher, is_builtin, check_selector, check_declared, concurrency_of, compile_group,
  add_outcome, compile_order, builtin_errors, joined, compile_groups,
}

abbrev pub name_of : GroupMatcher → String
name_of m = m.name

-- No name is repeated, and none is seen before.
NoRepeat : List String → List String → Type 0
NoRepeat seen [] = Unit
NoRepeat seen (name ∷ rest) = (member name seen ≡ false) × NoRepeat (name ∷ seen) rest

member_later : (b : Bool) {r : Bool} → r ≡ true → (if b then true else r) ≡ true
member_later true e = refl
member_later false e = e

member_self : (n : String) (seen : List String) → member n (n ∷ seen) ≡ true
member_self n seen = rw (same_self n) refl

NoRepeat-apart :
    (seen names : List String) (k : String)
    → NoRepeat seen names
    → member k seen ≡ true
    → Mem k names
    → ⊥
unfolding NoRepeat
NoRepeat-apart seen [] k h at m = not-mem-nil m
NoRepeat-apart seen (n ∷ ns) k h at m =
    Or.elim ⊥_prop (mem-cons.0 m) (λ e. true_apart (sym at ∙ ap (λ x. member x seen) e ∙ h.0))
      (NoRepeat-apart (n ∷ seen) ns k h.1 (member_later (same n k) at))

NoRepeat-Nodup : (seen names : List String) → NoRepeat seen names → Nodup names
unfolding NoRepeat
NoRepeat-Nodup seen [] h = Nodup-nil
NoRepeat-Nodup seen (n ∷ ns) h =
    Nodup-cons.1
      (NoRepeat-apart (n ∷ seen) ns n h.1 (member_self n seen), NoRepeat-Nodup (n ∷ seen) ns h.1)

module _ (lib : Libs) where
  -- A matcher that can be used: at least one node at a time, and a valid selector unless built in.
  pub record IsUsable (m : GroupMatcher) : Type 0 where
    pub some_at_a_time : 1 ≤ m.concurrency
    pub selected :
        (is_builtin m.name ≡ true)
        ⊎ ((s : LabelSelector) × (m.selector ≡ some s)
            × (lib.selector_error s ≡ none)
            × (is_empty (lib.label_value_problems m.name) ≡ true))

  -- A matcher that is made for `name`.
  For : String → Result GroupMatcher → Type 0
  For name r = (m : GroupMatcher) → r ≡ ok m → IsUsable m × (m.name ≡ name)

  at_least_one : (c : ℤ) → 1 ≤ pos_part (max_ℤ c (pos 1))
  at_least_one c = ground arith

  For-err : (name : String) (e : Error) → For name (err e)
  unfolding For
  For-err name e m h = elim (err-ne-ok h) [ ]

  For-ok : (name : String) (m : GroupMatcher) → IsUsable m → m.name ≡ name → For name (ok m)
  unfolding For
  For-ok name m usable named n h =
      subst (λ x. IsUsable x × (x.name ≡ name)) (ok-injective h) (usable, named)

  check_selector-For :
      (name : String) (n : ℕ) (o : Option LabelSelector)
      → 1 ≤ n
      → is_empty (lib.label_value_problems name) ≡ true
      → For name (check_selector lib name n o)
  unfolding check_selector
  check_selector-For name n none at_a_time valid = For-err name _
  check_selector-For name n (some s) at_a_time valid = elim (Option-cases (lib.selector_error s)) [
    | inl fine ↦
        rw (fine, check_selector)
          (For-ok name _
            (record { some_at_a_time = at_a_time; selected = inr (s, refl, fine, valid) }) refl)
    | inr (x, wrong) ↦ rw (wrong, check_selector) (For-err name _)
  ]

  check_declared-For : (name : String) (o : Option GroupSpec) → For name (check_declared lib name o)
  unfolding check_declared
  check_declared-For name none = For-err name _
  check_declared-For name (some spec) =
      elim (Bool-cases (is_empty (lib.label_value_problems name))) [
        | inl valid ↦
            rw (valid, check_declared)
              (check_selector-For name _ spec.selector (at_least_one spec.concurrency) valid)
        | inr bad ↦ rw (bad, check_declared) (For-err name _)
      ]

  concurrency_of-positive : (o : Option GroupSpec) → 1 ≤ concurrency_of lib o
  concurrency_of-positive none = omega arith
  concurrency_of-positive (some spec) = at_least_one spec.concurrency

  compile_group-For :
      (groups : Dict GroupSpec) (name : String) → For name (compile_group lib groups name)
  unfolding compile_group
  compile_group-For groups name = elim (Bool-cases (is_builtin name)) [
    | inl builtin ↦
        rw (builtin, compile_group)
          (For-ok name _
            (record {
              some_at_a_time = concurrency_of-positive (lookup name groups);
              selected = inl builtin;
            })
            refl)
    | inr custom ↦ rw (custom, compile_group) (check_declared-For name (lookup name groups))
  ]

  -- An outcome that leaves no error behind added its matcher.
  add_outcome-ok :
      (r : Result GroupMatcher) (more : List String × List GroupMatcher)
      → is_empty (add_outcome lib r more).0 ≡ true
      → (m : GroupMatcher) × (r ≡ ok m)
        × (is_empty more.0 ≡ true)
        × ((add_outcome lib r more).1 ≡ m ∷ more.1)
  add_outcome-ok (ok m) more e = (m, refl, e, refl)
  add_outcome-ok (err x) more e = elim (true_apart (sym e)) [ ]

  both : {a b : String} {xs ys : List String} → a ≡ b → xs ≡ ys → a ∷ xs ≡ b ∷ ys
  both e f = cc

  fresh :
      (seen_before : Bool) (x : Error) (r : Result GroupMatcher) (m : GroupMatcher)
      → (if seen_before then err x else r) ≡ ok m
      → (seen_before ≡ false) × (r ≡ ok m)
  fresh true x r m e = elim (err-ne-ok e) [ ]
  fresh false x r m e = (refl, e)

  compile_order-IsUsable :
      (groups : Dict GroupSpec) (order seen : List String)
      → is_empty (compile_order lib groups seen order).0 ≡ true
      → (map name_of (compile_order lib groups seen order).1 ≡ order)
        × NoRepeat seen order
        × All IsUsable (compile_order lib groups seen order).1
  unfolding compile_order NoRepeat For
  compile_order-IsUsable groups [] seen e = (refl, tt, tt)
  compile_order-IsUsable groups (name ∷ rest) seen e =
      let (m, is, clean, added) = add_outcome-ok _ _ e in
      let (new, made) = fresh (member name seen) _ (compile_group lib groups name) m is in
      let (usable, named) = compile_group-For groups name m made in
      let (names, apart, all) = compile_order-IsUsable groups rest _ clean in
      (
        ap (map name_of) added ∙ both named names,
        (new, subst (λ (b : Bool). NoRepeat (if b then seen else name ∷ seen) rest) new apart),
        subst (All IsUsable) (sym added) (usable, all),
      )

  joined-ok :
      (errors : List String) (ms ms' : List GroupMatcher)
      → joined lib errors ms ≡ ok ms'
      → (is_empty errors ≡ true) × (ms ≡ ms')
  joined-ok [] ms ms' e = (refl, ok-injective e)
  joined-ok (x ∷ xs) ms ms' e = elim (err-ne-ok e) [ ]

  is_empty-append : (xs ys : List String) → is_empty (xs ++ ys) ≡ true → is_empty ys ≡ true
  is_empty-append [] ys e = e
  is_empty-append (x ∷ xs) ys e = elim (true_apart (sym e)) [ ]

  -- When compileGroups accepts a strategy, there is one matcher for each group of the order, in that
  -- order; no group is listed twice; and each matcher takes at least one node at a time, and has a
  -- valid selector and a valid label value for a name unless its group is built in.
  pub compile_groups-IsUsable :
      (order : List String) (groups : Dict GroupSpec) (ms : List GroupMatcher)
      → compile_groups lib order groups ≡ ok ms
      → (map name_of ms ≡ order) × Nodup order × All IsUsable ms
  unfolding compile_groups
  compile_groups-IsUsable order groups ms e =
      let (none_wrong, same) = joined-ok _ _ ms e in
      let (names, apart, all) =
        compile_order-IsUsable groups order []
          (is_empty-append (builtin_errors lib groups) _ none_wrong) in
      (
        subst (λ xs. map name_of xs ≡ order) same names,
        NoRepeat-Nodup [] order apart,
        subst (All IsUsable) same all,
      )
