-- ===== src/Plan/Preflight/Report.antt =====
-- controllers/preflight.go: the report that the checks add to, and lists in messages.
use Prim.Native.String.{compare}
use Prim.Native.Nat.{Ordering}
use kangal_patch.Prelude.{
  ℕ, ◌-◌, leb, Bool, true, false, String, List, [], ◌∷◌, ◌++◌, concat, join, show_nat, take, length,
  if◌then◌else◌,
}

-- preflightFailure.
pub record PreflightFailure : Type 0 where
  pub reason : String
  pub message : String

-- preflightResult.
pub record PreflightResult : Type 0 where
  pub failures : List PreflightFailure
  pub passed : List String

abbrev pub empty_result : PreflightResult
empty_result = record { failures = []; passed = [] }

-- fail and pass, with the formatted message in parts.
unfoldable pub fail : String → List String → PreflightResult → PreflightResult
fail reason parts res = record res {
  failures = res.failures ++ (record { reason = reason; message = concat parts }) ∷ [];
}

unfoldable pub pass : List String → PreflightResult → PreflightResult
pass parts res = record res { passed = res.passed ++ concat parts ∷ [] }

abbrev pub max_names_in_messages : ℕ
max_names_in_messages = 20

-- truncatedList.
unfoldable pub truncated_list : List String → ℕ → String
truncated_list items limit =
    if leb (length items) limit
    then join ", " items
    else concat
        (join ", " (take limit items) ∷ " and " ∷ show_nat (length items - limit) ∷ " more" ∷ [])

-- slices.Sort of texts.
abbrev pub text_first : String → String → Bool
text_first s t = elim (compare s t) [ Ordering.gt ↦ false | _ ↦ true ]

abbrev pub insert_text : String → List String → List String
insert_text s [] = s ∷ []
insert_text s (t ∷ ts) =
    let rest = insert_text s ts in if text_first s t then s ∷ t ∷ ts else t ∷ rest

unfoldable pub sort_texts : List String → List String
sort_texts [] = []
sort_texts (s ∷ ss) = insert_text s (sort_texts ss)
