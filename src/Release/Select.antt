-- ===== src/Release/Select.antt =====
-- internal/release/release.go: Select against the declarative choice of the newest release.
use mathlib.Core.List.{Mem}
use kangal_patch.Prelude.{
  ℕ, ◌≡◌, refl, sym, ap, subst, ◌∙◌, inl, inr, ℤ, pos, ltb_ℤ, leb_ℤ, Bool, true, false, not, ◌&&◌,
  ◌||◌, ◌==◌, ◌+◌, ◌%◌, ◌≤◌, leb, same, Bool-cases, true_apart, and-true, arith, String, List, [],
  ◌∷◌, Option, none, some, All, All-imp, if◌then◌else◌,
}
use mathlib.Core.Option.{none-ne-some, some-injective}
use kangal_patch.Libs.{Libs, compare_versions}
use kangal_patch.Release.{
  Release, Selection, permitted, newer, is_old, consider, consider_all, still_pending, select,
}
use kangal_patch.Release.Order.{VersionOrder, IsNewest, newer_trans}
use kangal_patch.Release.Search.{best, search_newest, search_newest-IsNewest}

module _ (lib : Libs) (order : VersionOrder lib) where
  permitted-steps :
      (current v : lib.Version) (allow : String)
      → permitted lib current v allow ≡ true
      → (ltb_ℤ (pos 0) (compare_versions lib v current) ≡ true)
        × (lib.major v ≡ lib.major current)
        × (lib.minor v ≤ lib.minor current + 1)
        × (same allow "minor" ≡ false → lib.minor v ≡ lib.minor current)
  unfolding permitted
  permitted-steps current v allow h =
      steps (compare_versions lib v current) (lib.major v) (lib.major current) (lib.minor v)
        (lib.minor current) (same allow "minor") h
    where
      steps :
          (c : ℤ) (a b m n : ℕ) (s : Bool)
          → (if leb_ℤ c (pos 0) || not (a == b)
              then false
              else if s
              then leb m ((n + 1) % 18446744073709551616)
              else m == n)
            ≡ true
          → (ltb_ℤ (pos 0) c ≡ true) × (a ≡ b) × (m ≤ n + 1) × (s ≡ false → m ≡ n)
      steps c a b m n s h = ground arith

  module _ (current : lib.Version) (allow : String) (min_age : ℤ) (now : ℕ) where
    -- What may be rolled out now, and what is permitted but still too young.
    abbrev pub due : Release lib → Bool
    due r = permitted lib current r.version allow && is_old lib min_age now r

    abbrev pub young : Release lib → Bool
    young r = permitted lib current r.version allow && not (is_old lib min_age now r)

    -- The three results of the loop are three searches.
    consider_all-search :
        (field : Selection lib → Option (Release lib)) (P : Release lib → Bool)
        → ((res : Selection lib) (r : Release lib)
            → field (consider lib current allow min_age now res r) ≡ best lib order P (field res) r)
        → (rs : List (Release lib)) (res : Selection lib)
        → field (consider_all lib current allow min_age now rs res)
          ≡ search_newest lib order P rs (field res)
    unfolding consider_all search_newest
    consider_all-search field P turn [] res = refl
    consider_all-search field P turn (r ∷ rs) res =
        consider_all-search field P turn rs (consider lib current allow min_age now res r)
        ∙ ap (search_newest lib order P rs) (turn res r)

    search-IsNewest :
        (field : Selection lib → Option (Release lib)) (P : Release lib → Bool)
        → ((res : Selection lib) (r : Release lib)
            → field (consider lib current allow min_age now res r) ≡ best lib order P (field res) r)
        → (rs : List (Release lib)) (res : Selection lib) → field res ≡ none
        → IsNewest lib P rs (field (consider_all lib current allow min_age now rs res))
    search-IsNewest field P turn rs res empty =
        subst (IsNewest lib P rs)
          (sym (consider_all-search field P turn rs res ∙ ap (search_newest lib order P rs) empty))
          (search_newest-IsNewest lib order P rs)

    module _ (res : Selection lib) (r : Release lib) where
      consider-latest :
          (consider lib current allow min_age now res r).latest
          ≡ best lib order (λ _. true) res.latest r
      unfolding consider best
      consider-latest = elim (Bool-cases (permitted lib current r.version allow)) [
        | inr e ↦ rw e refl
        | inl e ↦ elim (Bool-cases (is_old lib min_age now r)) [
          | inl f ↦ rw (e, f) refl
          | inr f ↦ rw (e, f) refl
        ]
      ]

      consider-target :
          (consider lib current allow min_age now res r).target ≡ best lib order due res.target r
      unfolding consider best
      consider-target = elim (Bool-cases (permitted lib current r.version allow)) [
        | inr e ↦ rw e refl
        | inl e ↦ elim (Bool-cases (is_old lib min_age now r)) [
          | inl f ↦ rw (e, f) refl
          | inr f ↦ rw (e, f) refl
        ]
      ]

      consider-pending :
          (consider lib current allow min_age now res r).pending
          ≡ best lib order young res.pending r
      unfolding consider best
      consider-pending = elim (Bool-cases (permitted lib current r.version allow)) [
        | inr e ↦ rw e refl
        | inl e ↦ elim (Bool-cases (is_old lib min_age now r)) [
          | inl f ↦ rw (e, f) refl
          | inr f ↦ rw (e, f) refl
        ]
      ]

    newer-none : (r : Release lib) → newer lib r none ≡ true
    unfolding newer
    newer-none r = refl

    stale-newer :
        (p t : Release lib) (stale : Bool)
        → leb_ℤ (compare_versions lib p.version t.version) (pos 0) ≡ stale
        → newer lib p (some t) ≡ not stale
    unfolding newer
    stale-newer p t stale e = sorted (compare_versions lib p.version t.version) e
      where
        sorted : (c : ℤ) {b : Bool} → leb_ℤ c (pos 0) ≡ b → ltb_ℤ (pos 0) c ≡ not b
        sorted c e = ground arith

    -- Dropping a pending release that is not newer than the target.
    abbrev pub Awaits : List (Release lib) → Option (Release lib) → Option (Release lib) → Type 0
    Awaits rs target pending =
        ((p : Release lib)
          → pending ≡ some p
          → Mem p rs × (young p ≡ true) × (newer lib p target ≡ true))
        × All (λ s. young s ≡ true → newer lib s target ≡ true → newer lib s pending ≡ false) rs

    -- `stale` is the test of the last step of Select.
    drop-Awaits :
        (rs : List (Release lib)) (p t : Release lib) (stale : Bool)
        → leb_ℤ (compare_versions lib p.version t.version) (pos 0) ≡ stale
        → IsNewest lib young rs (some p)
        → Awaits rs (some t) (if stale then none else some p)
    drop-Awaits rs p t true e h = (
      λ q is. elim (none-ne-some q is) [ ],
      All-imp _ _ rs
          (λ s g y n.
            elim (true_apart
              (sym n ∙ newer_trans lib order s p (some t) (g y) (stale-newer p t true e))) [ ])
          (h.1),
    )
    drop-Awaits rs p t false e h = (
      λ q is. (
        (h.0 q is).0,
        (h.0 q is).1,
        subst (λ x. newer lib x (some t) ≡ true) (some-injective p q is) (stale-newer p t false e),
      ),
      All-imp _ _ rs (λ s g y n. g y) (h.1),
    )

    still_pending-Awaits :
        (rs : List (Release lib)) (pending target : Option (Release lib))
        → IsNewest lib young rs pending
        → Awaits rs target (still_pending lib pending target)
    unfolding still_pending
    still_pending-Awaits rs none target h =
        (λ p is. elim (none-ne-some p is) [ ], All-imp _ _ rs (λ s g y n. g y) (h.1))
    still_pending-Awaits rs (some p) none h =
        (λ q is. ((h.0 q is).0, (h.0 q is).1, newer-none q), All-imp _ _ rs (λ s g y n. g y) (h.1))
    still_pending-Awaits rs (some p) (some t) h = drop-Awaits rs p t _ refl h

    -- Each result is the newest release of its kind: `latest` of all; `target` of those that are
    -- permitted and old enough; `pending` of those that are permitted, too young and newer than the
    -- target. A result is empty only if no release is of its kind.
    pub select-IsNewest :
        (rs : List (Release lib))
        → IsNewest lib (λ _. true) rs (select lib rs current allow min_age now).latest
          × IsNewest lib due rs (select lib rs current allow min_age now).target
          × Awaits rs
              (select lib rs current allow min_age now).target
              (select lib rs current allow min_age now).pending
    unfolding select
    select-IsNewest rs = (
      search-IsNewest (λ res. res.latest) (λ _. true) consider-latest rs _ refl,
      search-IsNewest (λ res. res.target) due consider-target rs _ refl,
      still_pending-Awaits rs _ _
          (search-IsNewest (λ res. res.pending) young consider-pending rs _ refl),
    )

    -- A target is an upgrade within the major version: by at most one minor version if minor
    -- versions are allowed, and by none otherwise.
    pub select-target_steps :
        (rs : List (Release lib)) (r : Release lib)
        → (select lib rs current allow min_age now).target ≡ some r
        → (ltb_ℤ (pos 0) (compare_versions lib r.version current) ≡ true)
          × (lib.major r.version ≡ lib.major current)
          × (lib.minor r.version ≤ lib.minor current + 1)
          × (same allow "minor" ≡ false → lib.minor r.version ≡ lib.minor current)
    select-target_steps rs r chosen =
        permitted-steps current r.version allow
          (and-true _ _ ((select-IsNewest rs).1.0 r chosen).1).0
