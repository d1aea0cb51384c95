-- ===== src/Release.antt =====
-- internal/release/release.go: the choice of the release that an auto-update rolls out. The HTTP
-- request is left out; the list that it is parsed from starts at `GithubRelease`.
pub mod Order
pub mod Search
pub mod Select
use kangal_patch.Prelude.{
  ℕ, ◌+◌, ◌%◌, ◌==◌, ℤ, pos, sub_ℕ, leb, leb_ℤ, ltb_ℤ, Bool, true, false, not, ◌||◌, String, List,
  [], ◌∷◌, Option, none, some, same, is_blank, if◌then◌else◌,
}
use kangal_patch.Api.Kube.{Result, ok, err}
use kangal_patch.Libs.{Libs, compare_versions}

-- githubRelease; the instant is that of the JSON field.
pub record GithubRelease : Type 0 where
  pub tag_name : String
  pub draft : Bool
  pub prerelease : Bool
  pub published_at : ℕ

module _ (lib : Libs) where
  pub record Release : Type 0 where
    pub version : lib.Version
    pub published_at : ℕ

  -- The loop of List: drafts, prereleases and unparsable tags are skipped.
  unfoldable pub stable_releases : List GithubRelease → List Release
  stable_releases [] = []
  stable_releases (r ∷ raw) =
      let rest = stable_releases raw in
      if r.draft || r.prerelease then rest else elim (lib.parse_semantic r.tag_name) [
        | err e ↦ rest
        | ok v ↦
            if not (is_blank (lib.pre_release v))
            then rest
            else (record { version = v; published_at = r.published_at }) ∷ rest
      ]

  -- permitted, on 64-bit `uint`s.
  unfoldable pub permitted : lib.Version → lib.Version → String → Bool
  permitted current candidate allow =
      if leb_ℤ (compare_versions lib candidate current) (pos 0)
        || not (lib.major candidate == lib.major current)
      then false
      else if same allow "minor"
      then leb (lib.minor candidate) ((lib.minor current + 1) % 18446744073709551616)
      else lib.minor candidate == lib.minor current

  -- release.Result.
  pub record Selection : Type 0 where
    pub latest : Option Release
    pub target : Option Release
    pub pending : Option Release

  -- `best == nil || r.Version.Compare(best.Version) > 0`.
  unfoldable pub newer : Release → Option Release → Bool
  newer r none = true
  newer r (some best) = ltb_ℤ (pos 0) (compare_versions lib r.version best.version)

  abbrev pub newest_of : Option Release → Release → Option Release
  newest_of best r = if newer r best then some r else best

  unfoldable pub is_old : ℤ → ℕ → Release → Bool
  is_old min_age now r = leb_ℤ min_age (sub_ℕ now r.published_at)

  -- One turn of the loop of Select.
  unfoldable pub consider : lib.Version → String → ℤ → ℕ → Selection → Release → Selection
  consider current allow min_age now res r =
      let seen = record res { latest = newest_of res.latest r } in
      if not (permitted current r.version allow)
      then seen
      else if is_old min_age now r
      then record seen { target = newest_of seen.target r }
      else record seen { pending = newest_of seen.pending r }

  unfoldable pub consider_all : lib.Version → String → ℤ → ℕ → List Release → Selection → Selection
  consider_all current allow min_age now [] res = res
  consider_all current allow min_age now (r ∷ rs) res =
      consider_all current allow min_age now rs (consider current allow min_age now res r)

  -- A pending release that is not newer than the target is dropped.
  unfoldable pub still_pending : Option Release → Option Release → Option Release
  still_pending (some p) (some t) =
      if leb_ℤ (compare_versions lib p.version t.version) (pos 0) then none else some p
  still_pending pending target = pending

  -- Select.
  unfoldable pub select : List Release → lib.Version → String → ℤ → ℕ → Selection
  select releases current allow min_age now =
      let res =
        consider_all current allow min_age now releases
          (record { latest = none; target = none; pending = none }) in
      record res { pending = still_pending res.pending res.target }
