-- ===== src/Scheduling/Quorum.antt =====
-- internal/scheduling/scheduling.go: what CheckControlPlaneQuorum promises to etcd.
use kangal_patch.Prelude.{
  ℕ, ◌+◌, ◌*◌, ◌/◌, ◌≤◌, ◌<◌, ◌-◌, ◌≡◌, ◌⊎◌, refl, true, false, ◌&&◌, List, [], ◌∷◌, ltb, leb,
  length, All, arith, ◌↔◌, inl, inr, Bool-cases,
}
use kangal_patch.Api.Kube.{ok, err-ne-ok}
use kangal_patch.Scheduling.{Group, Rollout, control_plane_nodes}
use kangal_patch.Scheduling.Checks.{taken_down, check_groups, check_control_plane_quorum}

-- While `down` of the `n` members are away, more than half of them remain; one at a time is the
-- least that a rollout can do.
abbrev pub KeepsQuorum : ℕ → ℕ → Type 0
KeepsQuorum n down = (down ≤ 1) ⊎ (n < 2 * (n - down))

too_many : (n down : ℕ) → (ltb 1 down && leb ((n + 1) / 2) down) ≡ true → ¬ KeepsQuorum n down
too_many n down h k = ground arith

few_enough : (n down : ℕ) → (ltb 1 down && leb ((n + 1) / 2) down) ≡ false → KeepsQuorum n down
few_enough n down h = ground arith

check_groups-ok :
    (n : ℕ) (gs : List Group)
    → (check_groups n ((n + 1) / 2) gs ≡ ok tt) ↔ All (λ g. KeepsQuorum n (taken_down g)) gs
unfolding check_groups
check_groups-ok n [] = (λ _. tt, λ _. refl)
check_groups-ok n (g ∷ gs) =
    elim (Bool-cases (ltb 1 (taken_down g) && leb ((n + 1) / 2) (taken_down g))) [
      | inl e ↦ rw e (λ h. absurd (err-ne-ok h), λ k. absurd (too_many n (taken_down g) e k.0))
      | inr e ↦ rw e (
        λ h. (few_enough n (taken_down g) e, (check_groups-ok n gs).0 h),
        λ k. (check_groups-ok n gs).1 k.1,
      )
    ]

-- The check passes exactly when every group, at its full concurrency, takes down at most one of the
-- control plane nodes of the rollout or leaves more than half of them running.
pub check_control_plane_quorum-ok :
    (r : Rollout)
    → (check_control_plane_quorum r ≡ ok tt)
      ↔ All (λ g. KeepsQuorum (length (control_plane_nodes r)) (taken_down g)) r.groups
unfolding check_control_plane_quorum
check_control_plane_quorum-ok r = check_groups-ok (length (control_plane_nodes r)) r.groups
