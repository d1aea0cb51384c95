-- ===== src/SupportMatrix.antt =====
-- internal/supportmatrix/supportmatrix.go: which Kubernetes versions a Talos version supports.
use kangal_patch.Prelude.{
  ℕ, ◌≡◌, ◌⊎◌, ◌≤◌, ◌↔◌, ◌+◌, ◌==◌, refl, sym, ltb, Bool, true, false, ◌&&◌, ◌||◌, not, String,
  List, [], ◌∷◌, Option, none, some, concat, show_nat, if◌then◌else◌, arith, true_apart,
}
use kangal_patch.Api.Kube.{Error, Result, ok, err, errorf, wrap, unknown_talos, err-ne-ok}
use kangal_patch.Libs.{Libs}

-- An entry of kubernetesSupport: a Talos minor version, and the range of minor versions of Kubernetes.
pub record Support : Type 0 where
  pub major : ℕ
  pub minor : ℕ
  pub min : ℕ
  pub max : ℕ

abbrev pub talos_row : ℕ → ℕ → ℕ → Support
talos_row minor min max = record { major = 1; minor = minor; min = min; max = max }

-- kubernetesSupport.
abbrev pub kubernetes_support : List Support
kubernetes_support =
    talos_row 10 28 33
    ∷ talos_row 11 29 34
    ∷ talos_row 12 30 35
    ∷ talos_row 13 31 36
    ∷ talos_row 14 33 37
    ∷ []

-- The lookup in the map.
unfoldable pub find_support : ℕ → ℕ → List Support → Option Support
find_support major minor [] = none
find_support major minor (s ∷ rest) =
    let later = find_support major minor rest in
    if s.major == major && s.minor == minor then some s else later

module _ (lib : Libs) where
  -- From the lookup on.
  unfoldable pub check_supported :
      String → String → lib.Version → Option Support → Result (Unit {0})
  check_supported talos kubernetes k8s none = err (record {
    kind = unknown_talos;
    text = concat ("talos version not in compatibility matrix: " ∷ talos ∷ []);
  })
  check_supported talos kubernetes k8s (some supported) =
      if not (lib.major k8s == 1)
        || (ltb (lib.minor k8s) supported.min || ltb supported.max (lib.minor k8s))
      then err (
          errorf (
            concat (
              "kubernetes "
              ∷ kubernetes
              ∷ " is not supported by talos "
              ∷ talos
              ∷ " (supported: 1."
              ∷ show_nat supported.min
              ∷ "-1."
              ∷ show_nat supported.max
              ∷ ")"
              ∷ [])))
      else ok tt

  unfoldable pub validate_parsed :
      String → String → Result lib.Version → Result lib.Version → Result (Unit {0})
  validate_parsed talos kubernetes (err e) parsed =
      err (wrap (concat ("invalid talos version \"" ∷ talos ∷ "\"" ∷ [])) e)
  validate_parsed talos kubernetes (ok tv) (err e) =
      err (wrap (concat ("invalid kubernetes version \"" ∷ kubernetes ∷ "\"" ∷ [])) e)
  validate_parsed talos kubernetes (ok tv) (ok k8s) =
      check_supported talos kubernetes k8s
        (find_support (lib.major tv) (lib.minor tv) kubernetes_support)

  -- ValidateKubernetesVersion.
  unfoldable pub validate_kubernetes_version : String → String → Result (Unit {0})
  validate_kubernetes_version talos kubernetes =
      validate_parsed talos kubernetes (lib.parse_generic talos) (lib.parse_generic kubernetes)

-- The matrix as ranges: a Talos minor version from 10 to 13 supports six minor versions of Kubernetes
-- from the 18th above it, and 14 supports 33 to 37.
abbrev pub InMatrix : ℕ → ℕ → Type 0
InMatrix t k =
    ((10 ≤ t) × (t ≤ 13) × (t + 18 ≤ k) × (k ≤ t + 23)) ⊎ ((t ≡ 14) × (33 ≤ k) × (k ≤ 37))

accepts : ℕ → ℕ → Option Support → Bool
accepts major minor none = false
accepts major minor (some s) = not (not (major == 1) || (ltb minor s.min || ltb s.max minor))

accepts-InMatrix :
    (a t b k : ℕ)
    → accepts b k (find_support a t kubernetes_support) ≡ true
    → (a ≡ 1) × (b ≡ 1) × InMatrix t k
unfolding accepts find_support
accepts-InMatrix a t b k h = ground arith

InMatrix-accepts :
    (a t b k : ℕ)
    → (a ≡ 1) × (b ≡ 1) × InMatrix t k
    → accepts b k (find_support a t kubernetes_support) ≡ true
unfolding accepts find_support
InMatrix-accepts a t b k h = ground arith

refuse_if :
    (bad : Bool) (e : Error) → ((if bad then err e else ok (tt {0})) ≡ ok tt) ↔ (not bad ≡ true)
refuse_if true e = (λ h. elim (err-ne-ok h) [ ], λ h. elim (true_apart (sym h)) [ ])
refuse_if false e = (λ h. refl, λ h. refl)

check_supported-accepts :
    (lib : Libs) (talos kubernetes : String) (k8s : lib.Version) (o : Option Support)
    → (check_supported lib talos kubernetes k8s o ≡ ok tt)
      ↔ (accepts (lib.major k8s) (lib.minor k8s) o ≡ true)
unfolding check_supported accepts
check_supported-accepts lib talos kubernetes k8s none =
    (λ h. elim (err-ne-ok h) [ ], λ h. elim (true_apart (sym h)) [ ])
check_supported-accepts lib talos kubernetes k8s (some s) = refuse_if _ _

module _ (lib : Libs) (talos kubernetes : String) (tv k8s : lib.Version) where
  -- With both versions parsed, the check accepts exactly the pairs in the ranges of the matrix, both
  -- of major version 1.
  pub validate_kubernetes_version-ok :
      lib.parse_generic talos ≡ ok tv
      → lib.parse_generic kubernetes ≡ ok k8s
      → (validate_kubernetes_version lib talos kubernetes ≡ ok tt)
        ↔ ((lib.major tv ≡ 1) × (lib.major k8s ≡ 1) × InMatrix (lib.minor tv) (lib.minor k8s))
  unfolding validate_kubernetes_version validate_parsed
  validate_kubernetes_version-ok t k =
      rw (t, k)
        (
          (λ h.
              accepts-InMatrix (lib.major tv) (lib.minor tv) (lib.major k8s) (lib.minor k8s)
                ((check_supported-accepts lib talos kubernetes k8s _).0 h)),
          (λ h.
              (check_supported-accepts lib talos kubernetes k8s _).1
                (InMatrix-accepts (lib.major tv) (lib.minor tv) (lib.major k8s) (lib.minor k8s) h)),
        )
