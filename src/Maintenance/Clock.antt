-- ===== src/Maintenance/Clock.antt =====
-- internal/maintenance/maintenance.go, parseTimeOfDay: the text of a time of day, as fmt.Sscanf with
-- "%d:%d" reads it. What follows the minutes is not looked at, there or here. Texts are lists of code
-- points.
use Prim.Native.Char.{code}
use kangal_patch.Prelude.{
  ◌≡◌, ◌∙◌, ap, refl, ℕ, suc, ◌+◌, ◌<◌, arith, ◌-◌, ◌*◌, ◌==◌, leb, ℤ, pos, negsuc, ◌+ℤ◌,
  add_duration, Bool, true, false, not, ◌&&◌, ◌||◌, String, List, [], ◌∷◌, Option, none, some,
  concat, if◌then◌else◌,
}
use kangal_patch.Api.Kube.{Result, ok, err, errorf}
use kangal_patch.Calendar.{day_of, midnight}

abbrev pub codes : String → List ℕ
codes String.[] = []
codes (String.◌∷◌ c s) = code c ∷ codes s

-- len(strings.Split(s, ":")) != 2, by the number of colons.
abbrev pub colons : List ℕ → ℕ
colons [] = 0
colons (c ∷ cs) = let rest = colons cs in if c == b':' then suc rest else rest

-- unicode.IsSpace but for the line feed.
abbrev is_space : ℕ → Bool
is_space c =
    (c == 9 || (c == 11 || (c == 12 || (c == 13 || (c == 32 || (c == 133 || c == 160))))))
    || ((c == 5760 || (leb 8192 c && leb c 8202))
        || (c == 8232 || (c == 8233 || (c == 8239 || (c == 8287 || c == 12288)))))

-- SkipSpace, which fails at a line feed.
skip_space : List ℕ → Option (List ℕ)
skip_space [] = some []
skip_space (c ∷ cs) =
    let rest = skip_space cs in if is_space c then rest else if c == 10 then none else some (c ∷ cs)

abbrev is_digit : ℕ → Bool
is_digit c = leb b'0' c && leb c b'9'

-- The number that the digits in front continue, and what follows them.
take_digits : ℕ → List ℕ → ℕ × List ℕ
take_digits n [] = (n, [])
take_digits n (c ∷ cs) =
    let more = take_digits (10 * n + (c - b'0')) cs in if is_digit c then more else (n, c ∷ cs)

-- One digit at least, and no number outside of int64.
abbrev in_int64 : Bool → ℕ → Bool
in_int64 negative n = leb n (if negative then 9223372036854775808 else 9223372036854775807)

abbrev signed : Bool → ℕ → ℤ
signed negative n = if negative && not (n == 0) then negsuc (n - 1) else pos n

abbrev checked : Bool → ℕ × List ℕ → Option (ℤ × List ℕ)
checked negative (n, rest) = if in_int64 negative n then some (signed negative n, rest) else none

scan_number : Bool → List ℕ → Option (ℤ × List ℕ)
unfolding take_digits
scan_number negative [] = none
scan_number negative (c ∷ cs) =
    if is_digit c then checked negative (take_digits 0 (c ∷ cs)) else none

scan_sign : List ℕ → Option (ℤ × List ℕ)
unfolding scan_number
scan_sign [] = none
scan_sign (c ∷ cs) =
    if c == b'-'
    then scan_number true cs
    else if c == b'+'
    then scan_number false cs
    else scan_number false (c ∷ cs)

-- The verb %d.
scan_int : List ℕ → Option (ℤ × List ℕ)
unfolding skip_space scan_sign
scan_int cs = elim (skip_space cs) [ none ↦ none | some rest ↦ scan_sign rest ]

-- The colon of the format, and the minutes.
scan_minutes : ℤ → List ℕ → Option (ℤ × ℤ)
unfolding scan_int
scan_minutes hour [] = none
scan_minutes hour (c ∷ cs) =
    if c == b':'
    then elim (scan_int cs) [ none ↦ none | some (minute, rest) ↦ some (hour, minute) ]
    else none

-- fmt.Sscanf(s, "%d:%d", &hour, &minute).
unfoldable pub scan_clock : List ℕ → Option (ℤ × ℤ)
unfolding scan_int scan_minutes
scan_clock cs = elim (scan_int cs) [ none ↦ none | some (hour, rest) ↦ scan_minutes hour rest ]

-- `n` units of a duration.
abbrev pub times : ℕ → ℤ → ℤ
times unit (pos n) = pos (n * unit)
times unit (negsuc n) = negsuc (suc n * unit - 1)

-- The time of day as the duration from midnight, which time.Date adds, however large it is.
unfoldable pub clock_of : ℤ × ℤ → ℤ
clock_of (hour, minute) = times 3600000000000 hour +ℤ times 60000000000 minute

unfoldable pub parse_clock : String → Result ℤ
unfolding scan_clock clock_of
parse_clock s =
    if not (colons (codes s) == 1)
    then err (errorf (concat ("invalid time format: " ∷ s ∷ [])))
    else elim (scan_clock (codes s)) [
      | none ↦ err (errorf "failed to parse time")
      | some clock ↦ ok (clock_of clock)
    ]

abbrev pub on_day : ℕ → Result ℤ → Result ℕ
on_day d (ok c) = ok (add_duration (midnight d) c)
on_day d (err e) = err e

-- parseTimeOfDay, for the day of the reference. The text of Sscanf's errors is left out; no caller
-- keeps it.
unfoldable pub parse_time_of_day : String → ℕ → Result ℕ
parse_time_of_day s reference = on_day (day_of reference) (parse_clock s)

sample_clock : parse_clock "22:30" ≡ ok (pos 81000000000000)
unfolding parse_clock concat
sample_clock = refl

skip_space-other :
    (c : ℕ) (cs : List ℕ)
    → is_space c ≡ false
    → (c == 10) ≡ false
    → skip_space (c ∷ cs) ≡ some (c ∷ cs)
unfolding skip_space
skip_space-other c cs e f = ground (arith, e, f)

scan_sign-none :
    (c : ℕ) (cs : List ℕ)
    → (c == b'-') ≡ false
    → (c == b'+') ≡ false
    → scan_sign (c ∷ cs) ≡ scan_number false (c ∷ cs)
unfolding scan_sign
scan_sign-none c cs e f = ground (arith, e, f)

take_digits-digit :
    (n c : ℕ) (cs : List ℕ)
    → is_digit c ≡ true
    → take_digits n (c ∷ cs) ≡ take_digits (10 * n + (c - b'0')) cs
unfolding take_digits
take_digits-digit n c cs e = rw e refl

scan_number-digit :
    (c : ℕ) (cs : List ℕ)
    → is_digit c ≡ true
    → scan_number false (c ∷ cs) ≡ checked false (take_digits 0 (c ∷ cs))
unfolding scan_number
scan_number-digit c cs e = rw e refl

-- Two digits are read as their number, where no further digit follows.
module _ (a b : ℕ) (a_small : a < 10) (b_small : b < 10) where
  digits_value :
      (n : ℕ) (rest : List ℕ) → n ≡ 10 * a + b → checked false (n, rest) ≡ some (pos n, rest)
  digits_value n rest e = ground (arith, e, a_small, b_small)

  scan_int-two_digits :
      (m n : ℕ) (rest : List ℕ)
      → m ≡ b'0' + a
      → n ≡ b'0' + b
      → ((k : ℕ) → take_digits k rest ≡ (k, rest))
      → scan_int (m ∷ n ∷ rest) ≡ some (pos (10 * a + b), rest)
  unfolding scan_int
  scan_int-two_digits m n rest e f ends =
      let digit_of_m : is_digit m ≡ true = ground (arith, e, a_small) in
      let digit_of_n : is_digit n ≡ true = ground (arith, f, b_small) in
      let value : 10 * (10 * 0 + (m - b'0')) + (n - b'0') ≡ 10 * a + b = omega (arith, e, f) in
      ap (λ o. elim o [ none ↦ none | some cs ↦ scan_sign cs ])
        (skip_space-other m (n ∷ rest) (ground (arith, e, a_small)) (ground (arith, e, a_small)))
      ∙ scan_sign-none m (n ∷ rest) (ground (arith, e, a_small)) (ground (arith, e, a_small))
      ∙ scan_number-digit m (n ∷ rest) digit_of_m
      ∙ ap (checked false) (
          take_digits-digit 0 m (n ∷ rest) digit_of_m
          ∙ take_digits-digit _ n rest digit_of_n
          ∙ ends _)
      ∙ digits_value _ rest value
      ∙ ap (λ v. some (pos v, rest)) value

clock_of-pos : (h m : ℕ) → clock_of (pos h, pos m) ≡ pos (h * 3600000000000 + m * 60000000000)
unfolding clock_of
clock_of-pos h m = sum_of_pos (h * 3600000000000) (m * 60000000000)
  where
    sum_of_pos : (x y : ℕ) → pos x +ℤ pos y ≡ pos (x + y)
    sum_of_pos x y = ground arith

-- The code points of "ab:cd".
abbrev pub clock_digits : ℕ → ℕ → ℕ → ℕ → List ℕ
clock_digits a b c d = (b'0' + a) ∷ (b'0' + b) ∷ b':' ∷ (b'0' + c) ∷ (b'0' + d) ∷ []

module _ (a b c d : ℕ) (a_small : a < 10) (b_small : b < 10) (c_small : c < 10)
    (d_small : d < 10) where
  colons-clock_digits : (colons (clock_digits a b c d) == 1) ≡ true
  colons-clock_digits = ground (arith, a_small, b_small, c_small, d_small)

  scan_minutes-clock_digits :
      (h : ℤ) → scan_minutes h (b':' ∷ (b'0' + c) ∷ (b'0' + d) ∷ []) ≡ some (h, pos (10 * c + d))
  unfolding scan_minutes take_digits
  scan_minutes-clock_digits h =
      ap (λ o. elim o [ none ↦ none | some (minute, rest) ↦ some (h, minute) ])
        (scan_int-two_digits c d c_small d_small _ _ [] refl refl (λ k. refl))

  scan_clock-clock_digits :
      scan_clock (clock_digits a b c d) ≡ some (pos (10 * a + b), pos (10 * c + d))
  unfolding scan_clock take_digits
  scan_clock-clock_digits =
      ap (λ o. elim o [ none ↦ none | some (hour, rest) ↦ scan_minutes hour rest ])
        (scan_int-two_digits a b a_small b_small _ _ (b':' ∷ (b'0' + c) ∷ (b'0' + d) ∷ []) refl refl
          (λ k. refl))
      ∙ scan_minutes-clock_digits (pos (10 * a + b))

  -- A text of two digits, a colon and two digits is read as that many hours and minutes from midnight.
  pub parse_clock-digits :
      (s : String)
      → codes s ≡ clock_digits a b c d
      → parse_clock s ≡ ok (pos ((10 * a + b) * 3600000000000 + (10 * c + d) * 60000000000))
  unfolding parse_clock
  parse_clock-digits s e =
      ap
        (λ cs.
          if not (colons cs == 1)
          then err (errorf (concat ("invalid time format: " ∷ s ∷ [])))
          else elim (scan_clock cs) [
            | none ↦ err (errorf "failed to parse time")
            | some clock ↦ ok (clock_of clock)
          ])
        e
      ∙ ap
          (λ one.
            if not one
            then err (errorf (concat ("invalid time format: " ∷ s ∷ [])))
            else elim (scan_clock (clock_digits a b c d)) [
              | none ↦ err (errorf "failed to parse time")
              | some clock ↦ ok (clock_of clock)
            ])
          colons-clock_digits
      ∙ ap
          (λ o. elim o [
            | none ↦ err (errorf "failed to parse time")
            | some clock ↦ ok (clock_of clock)
          ])
          scan_clock-clock_digits
      ∙ ap ok (clock_of-pos (10 * a + b) (10 * c + d))
