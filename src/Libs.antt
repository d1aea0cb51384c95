-- ===== src/Libs.antt =====
-- What the operator takes from apimachinery and client-go and this repository does not implement:
-- version parsing, label selectors, label validation, and the attempts of a retry.
use kangal_patch.Prelude.{ℕ, ℤ, pos, negsuc, Bool, String, List, Option, Dict, if◌then◌else◌, ltb_ℤ}
use kangal_patch.Api.Kube.{Error, Result, ok, err, LabelSelector}

pub record Libs : Type 1 where
  -- version.Version with ParseSemantic, ParseGeneric, LessThan, GreaterThan and its accessors
  pub Version : Type 0
  pub parse_semantic : String → Result Version
  pub parse_generic : String → Result Version
  pub less_than : Version → Version → Bool
  pub greater_than : Version → Version → Bool
  pub major : Version → ℕ
  pub minor : Version → ℕ
  pub pre_release : Version → String
  pub version_text : Version → String
  -- metav1.LabelSelectorAsSelector: its error, and what the compiled selector matches
  pub selector_error : LabelSelector → Option Error
  pub selects : LabelSelector → Dict String → Bool
  -- metav1.FormatLabelSelector
  pub format_selector : Option LabelSelector → String
  -- validation.IsValidLabelValue
  pub label_value_problems : String → List String
  -- retry.DefaultBackoff.Steps
  pub retry_steps : ℕ

module _ (lib : Libs) where
  open lib use {Version, parse_semantic, less_than, greater_than}

  -- release.Version.Compare (internal/release/release.go): -1, 0 or 1.
  unfoldable pub compare_versions : Version → Version → ℤ
  compare_versions v o =
      if less_than v o then negsuc 0 else if greater_than v o then pos 1 else pos 0

  -- isDowngrade (controllers/preflight.go): unparsable versions are no downgrade.
  unfoldable pub is_downgrade : String → String → Bool
  unfolding compare_versions
  is_downgrade current target = elim (parse_semantic current) [
    | err _ ↦ Bool.false
    | ok c ↦ elim (parse_semantic target) [
      | err _ ↦ Bool.false
      | ok t ↦ ltb_ℤ (compare_versions t c) (pos 0)
    ]
  ]
