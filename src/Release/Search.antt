-- ===== src/Release/Search.antt =====
-- internal/release/release.go: the search for the newest release of a kind.
use mathlib.Core.List.{Mem, mem-cons_self, mem-cons_of_mem}
use kangal_patch.Prelude.{
  ◌≡◌, ◌⊎◌, refl, sym, subst, ◌∙◌, inl, inr, Bool, true, false, Bool-cases, true_apart, List, [],
  ◌∷◌, Option, none, some, All, if◌then◌else◌,
}
use mathlib.Core.Option.{none-ne-some, some-injective}
use kangal_patch.Libs.{Libs}
use kangal_patch.Release.{Release, newer, newest_of}
use kangal_patch.Release.Order.{VersionOrder, IsNewest, newer_irrefl, newer_trans, newer_asym}

module _ (lib : Libs) (order : VersionOrder lib) where
  -- One turn of a search for the newest release that satisfies `P`, and the search.
  module _ (P : Release lib → Bool) where
    unfoldable pub best : Option (Release lib) → Release lib → Option (Release lib)
    best o r = if P r then newest_of lib o r else o

    unfoldable pub search_newest : List (Release lib) → Option (Release lib) → Option (Release lib)
    search_newest [] o = o
    search_newest (r ∷ rs) o = search_newest rs (best o r)

    best-origin :
        (o : Option (Release lib)) (r : Release lib)
        → (best o r ≡ o) ⊎ ((best o r ≡ some r) × (P r ≡ true))
    unfolding best
    best-origin o r = origin (P r) (newer lib r o)
      where
        origin :
            (p n : Bool) {o : Option (Release lib)} {r : Release lib}
            → ((if p then (if n then some r else o) else o) ≡ o)
              ⊎ (((if p then (if n then some r else o) else o) ≡ some r) × (p ≡ true))
        origin true true = inr (refl, refl)
        origin true false = inl refl
        origin false n = inl refl

    overtaken :
        (o : Option (Release lib)) (r a : Release lib)
        → newer lib a o ≡ false
        → newer lib r o ≡ true
        → newer lib a (some r) ≡ false
    unfolding newer
    overtaken none r a h e = elim (true_apart h) [ ]
    overtaken (some b) r a h e = newer_trans lib order a b (some r) h (newer_asym lib order r b e)

    -- What is not newer than the best so far stays so.
    best-keeps :
        (o : Option (Release lib)) (r a : Release lib)
        → newer lib a o ≡ false
        → newer lib a (best o r) ≡ false
    unfolding best
    best-keeps o r a h = keeps o r a (P r) (newer lib r o) h (overtaken o r a h)
      where
        keeps :
            (o : Option (Release lib)) (r a : Release lib) (p n : Bool)
            → newer lib a o ≡ false
            → (n ≡ true → newer lib a (some r) ≡ false)
            → newer lib a (if p then (if n then some r else o) else o) ≡ false
        keeps o r a true true h after = after refl
        keeps o r a true false h after = h
        keeps o r a false n h after = h

    best-covers :
        (o : Option (Release lib)) (r : Release lib) → P r ≡ true → newer lib r (best o r) ≡ false
    unfolding best
    best-covers o r h = elim (Bool-cases (newer lib r o)) [
      | inl e ↦ rw (h, e) (newer_irrefl lib order r)
      | inr e ↦ rw (h, e) e
    ]

    -- Where the search ends: at its start or at a release of the list, and with nothing newer.
    Origin : List (Release lib) → Option (Release lib) → Option (Release lib) → Type 0
    Origin rs o o' = (o' ≡ o) ⊎ ((b : Release lib) × (o' ≡ some b) × Mem b rs × (P b ≡ true))

    search_newest-Origin :
        (rs : List (Release lib)) (o : Option (Release lib)) → Origin rs o (search_newest rs o)
    unfolding search_newest Origin
    search_newest-Origin [] o = inl refl
    search_newest-Origin (r ∷ rs) o = elim (search_newest-Origin rs (best o r)) [
      | inr (b, e, at, holds) ↦ inr (b, e, mem-cons_of_mem r at, holds)
      | inl e ↦ elim (best-origin o r) [
        | inl same ↦ inl (e ∙ same)
        | inr (is, holds) ↦ inr (r, e ∙ is, mem-cons_self, holds)
      ]
    ]

    search_newest-keeps :
        (rs : List (Release lib)) (o : Option (Release lib)) (a : Release lib)
        → newer lib a o ≡ false
        → newer lib a (search_newest rs o) ≡ false
    unfolding search_newest
    search_newest-keeps [] o a h = h
    search_newest-keeps (r ∷ rs) o a h = search_newest-keeps rs (best o r) a (best-keeps o r a h)

    search_newest-covers :
        (rs : List (Release lib)) (o : Option (Release lib))
        → All (λ s. P s ≡ true → newer lib s (search_newest rs o) ≡ false) rs
    unfolding search_newest
    search_newest-covers [] o = tt
    search_newest-covers (r ∷ rs) o = (
      λ h. search_newest-keeps rs (best o r) r (best-covers o r h),
      search_newest-covers rs (best o r),
    )

    pub search_newest-IsNewest :
        (rs : List (Release lib)) → IsNewest lib P rs (search_newest rs none)
    unfolding Origin
    search_newest-IsNewest rs = (found (search_newest-Origin rs none), search_newest-covers rs none)
      where
        found :
            {rs : List (Release lib)} {o : Option (Release lib)}
            → Origin rs none o
            → (b : Release lib) → o ≡ some b
            → Mem b rs × (P b ≡ true)
        found (inl e) b is = elim (none-ne-some b (sym e ∙ is)) [ ]
        found {rs} (inr (c, e, at, holds)) b is =
            subst (λ x. Mem x rs × (P x ≡ true)) (some-injective c b (sym e ∙ is)) (at, holds)
