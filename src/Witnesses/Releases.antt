-- ===== src/Witnesses/Releases.antt =====
-- The theorems of release selection at four sample releases.
use kangal_patch.Prelude.{
  ℕ, ◌+◌, ◌≤◌, ◌≡◌, refl, pos, ltb_ℤ, true, false, same, List, [], ◌∷◌, arith,
}
use kangal_patch.Libs.{compare_versions}
use kangal_patch.Release.{
  Release, select, newer, is_old, permitted, consider, consider_all, still_pending,
}
use kangal_patch.Release.Order.{VersionOrder, IsNewest}
use kangal_patch.Release.Select.{due, Awaits, select-IsNewest, select-target_steps}
use kangal_patch.Samples.{sample_libs}

sample_order : VersionOrder sample_libs
sample_order = record {
  flipped = λ a b. refl;
  asymmetric = λ a b h. ground arith;
  negatively_transitive = λ a b c h k. ground arith;
}

-- The versions are minor versions of one major version.
abbrev sample_release : ℕ → ℕ → Release sample_libs
sample_release v t = record { version = v; published_at = t }

abbrev sample_releases : List (Release sample_libs)
sample_releases =
    sample_release 6 90 ∷ sample_release 5 80 ∷ sample_release 4 10 ∷ sample_release 5 20 ∷ []

select-IsNewest_example :
    IsNewest sample_libs
      (λ _. true)
      sample_releases
      (select sample_libs sample_releases 4 "minor" (pos 50) 100).latest
    × IsNewest sample_libs
        (due sample_libs sample_order 4 "minor" (pos 50) 100)
        sample_releases
        (select sample_libs sample_releases 4 "minor" (pos 50) 100).target
    × Awaits sample_libs sample_order 4 "minor"
        (pos 50)
        100
        sample_releases
        (select sample_libs sample_releases 4 "minor" (pos 50) 100).target
        (select sample_libs sample_releases 4 "minor" (pos 50) 100).pending
select-IsNewest_example =
    select-IsNewest sample_libs sample_order 4 "minor" (pos 50) 100 sample_releases

select-target_steps_example :
    (ltb_ℤ (pos 0) (compare_versions sample_libs 5 4) ≡ true)
    × (sample_libs.major 5 ≡ sample_libs.major 4)
    × (5 ≤ 4 + 1)
    × (same "minor" "minor" ≡ false → sample_libs.minor 5 ≡ sample_libs.minor 4)
unfolding select newer is_old permitted consider consider_all still_pending compare_versions
select-target_steps_example =
    select-target_steps sample_libs sample_order 4 "minor" (pos 50) 100 sample_releases
      (sample_release 5 20) refl
