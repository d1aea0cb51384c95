-- ===== src/Prelude/Text.antt =====
-- Text: concatenation, the decimal and duration verbs of package fmt, and maps from text.
use Prim.Native.Nat.{ℕ, zero, suc, ◌/◌, ◌%◌}
use Prim.Native.String.{String, ◌++◌ as text_append}
use mathlib.Core.Path.{◌≡◌, refl}
use mathlib.Core.Bool.{Bool, true, false}
use mathlib.Core.List.{List, [], ◌∷◌}
use mathlib.Core.Option.{Option, none, some}
use text.Mathlib.TextEquality.{eq_iff}
use text.Mathlib.Text.{◌==◌ as str_eq}
use kangal_patch.Prelude.Tests.{ltb, ◌==◌, if◌then◌else◌}
use kangal_patch.Prelude.Int.{ℤ, pos, negsuc}

abbrev pub same : String → String → Bool
same s t = str_eq s t

pub same-eq : (s t : String) → same s t ≡ true → s ≡ t
same-eq s t h = (eq_iff s t).0 h

pub same_self : (s : String) → same s s ≡ true
same_self s = (eq_iff s s).1 refl

abbrev pub is_blank : String → Bool
is_blank s = str_eq s ""

unfoldable pub concat : List String → String
concat [] = ""
concat (s ∷ ss) = text_append s (concat ss)

-- strings.Join(items, sep).
unfoldable pub join : String → List String → String
join sep [] = ""
join sep (s ∷ []) = s
join sep (s ∷ t ∷ rest) = text_append s (text_append sep (join sep (t ∷ rest)))

digit : ℕ → String
digit zero = "0"
digit (suc zero) = "1"
digit (suc (suc zero)) = "2"
digit (suc (suc (suc zero))) = "3"
digit (suc (suc (suc (suc zero)))) = "4"
digit (suc (suc (suc (suc (suc zero))))) = "5"
digit (suc (suc (suc (suc (suc (suc zero)))))) = "6"
digit (suc (suc (suc (suc (suc (suc (suc zero))))))) = "7"
digit (suc (suc (suc (suc (suc (suc (suc (suc zero)))))))) = "8"
digit _ = "9"

-- The digits in front of `rest`; forty of them cover every 64-bit number.
digits_before : ℕ → ℕ → String → String
unfolding digit
digits_before zero n rest = rest
digits_before (suc f) n rest =
    let front = text_append (digit (n % 10)) rest in
    let more = digits_before f (n / 10) front in if ltb n 10 then front else more

-- `%d` of a number that is not negative.
unfoldable pub show_nat : ℕ → String
unfolding digits_before
show_nat n = digits_before 40 n ""

-- `%d` of a signed number.
unfoldable pub show_int : ℤ → String
unfolding show_nat
show_int (pos n) = show_nat n
show_int (negsuc n) = text_append "-" (show_nat (suc n))

-- The fraction `n / 10 ^ places` with its trailing zeros left out, and its point.
fraction_before : ℕ → ℕ → Bool → String → String
unfolding digit
fraction_before zero n printed rest = if printed then text_append "." rest else rest
fraction_before (suc places) n printed rest =
    let shown = text_append (digit (n % 10)) rest in
    let with_digit = fraction_before places (n / 10) true shown in
    let without = fraction_before places (n / 10) false rest in
    if printed then with_digit else if n % 10 == 0 then without else with_digit

-- time.Duration.String of a duration of `u` nanoseconds that is not negative.
show_span : ℕ → String
unfolding show_nat fraction_before concat
show_span u =
    let small = λ (unit places : ℕ) (name : String).
      concat (show_nat (u / unit) ∷ fraction_before places (u % unit) false name ∷ []) in
    let secs = u / 1000000000 in
    let tail = concat (show_nat (secs % 60) ∷ fraction_before 9 (u % 1000000000) false "s" ∷ []) in
    let mins = concat (show_nat (secs / 60 % 60) ∷ "m" ∷ tail ∷ []) in
    let hours = concat (show_nat (secs / 3600) ∷ "h" ∷ mins ∷ []) in
    if u == 0
    then "0s"
    else if ltb u 1000
    then concat (show_nat u ∷ "ns" ∷ [])
    else if ltb u 1000000
    then small 1000 3 "µs"
    else if ltb u 1000000000
    then small 1000000 6 "ms"
    else if ltb secs 60
    then tail
    else if ltb secs 3600
    then mins
    else hours

-- `%s` of a time.Duration.
unfoldable pub show_duration : ℤ → String
unfolding show_span
show_duration (pos n) = show_span n
show_duration (negsuc n) = text_append "-" (show_span (suc n))

-- A Go map from strings, as an association list; the first entry of a key counts.
abbrev pub Dict {ℓ} : Type ℓ → Type ℓ
Dict A = List (String × A)

module _ {ℓ} {A : Type ℓ} where
  abbrev pub lookup : String → Dict A → Option A
  lookup k [] = none
  lookup k ((j, v) ∷ m) = let rest = lookup k m in if str_eq j k then some v else rest

  abbrev pub insert : String → A → Dict A → Dict A
  insert k v m = (k, v) ∷ m

  abbrev pub remove : String → Dict A → Dict A
  remove k [] = []
  remove k ((j, v) ∷ m) = let rest = remove k m in if str_eq j k then rest else (j, v) ∷ rest

abbrev pub is_some {ℓ} : {A : Type ℓ} → Option A → Bool
is_some none = false
is_some (some a) = true

module _ {ℓ} {A : Type ℓ} where
  abbrev pub has_key : String → Dict A → Bool
  has_key k m = is_some (lookup k m)

-- A set of strings, as a list.
abbrev pub member : String → List String → Bool
member k [] = false
member k (s ∷ ss) = let rest = member k ss in if str_eq s k then true else rest

duration_text : show_duration (pos 90000000000) ≡ "1m30s"
unfolding show_duration
duration_text = refl

fraction_text : show_duration (pos 1500000000) ≡ "1.5s"
unfolding show_duration
fraction_text = refl
