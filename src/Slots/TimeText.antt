-- ===== src/Slots/TimeText.antt =====
-- Times of day as text: `timeStringToMinutes` and `minutesToTimeString` of
-- apps/api/src/modules/availability/slot-calculator.ts. A text is the list of its character codes.
-- Of JavaScript's `Number`, texts of decimal digits are modelled; any other text is NaN (`none`).
use ardenne_padel_v.Prelude.{
  ltb, leb, ◌==◌, if◌then◌else◌, ne→==_false, Bool-cases, All, ℕ, zero, suc, ◌+◌, ◌-◌, ◌*◌, ◌/◌,
  ◌%◌, ◌<◌, ◌≡◌, refl, ap, ◌∙◌, ◌≢◌, inl, inr, Bool, ◌&&◌, Option, none, some, List, [], ◌∷◌, ◌++◌,
  map, arith,
}

abbrev is_digit : ℕ → Bool
is_digit c = leb 48 c && leb c 57

-- `Number(text)`, the digits before `text` worth `n`
unfoldable pub number_from : ℕ → List ℕ → Option ℕ
number_from n [] = some n
number_from n (c ∷ cs) =
    let rest = number_from (n * 10 + (c - 48)) cs in if is_digit c then rest else none

abbrev onto_first : ℕ → List (List ℕ) → List (List ℕ)
onto_first c [] = (c ∷ []) ∷ []
onto_first c (part ∷ parts) = (c ∷ part) ∷ parts

-- `text.split(":")`
unfoldable pub split_colon : List ℕ → List (List ℕ)
split_colon [] = [] ∷ []
split_colon (c ∷ cs) =
    let parts = split_colon cs in if c == 58 then [] ∷ parts else onto_first c parts

-- `(h ?? 0) * 60 + (m ?? 0)`, where NaN is not replaced
abbrev hours_and_minutes : List (Option ℕ) → Option ℕ
hours_and_minutes [] = some 0
hours_and_minutes (some h ∷ []) = some (h * 60)
hours_and_minutes (some h ∷ some m ∷ _) = some (h * 60 + m)
hours_and_minutes (some h ∷ none ∷ _) = none
hours_and_minutes (none ∷ _) = none

-- `timeStringToMinutes`
unfoldable pub time_string_to_minutes : List ℕ → Option ℕ
unfolding split_colon number_from
time_string_to_minutes text = hours_and_minutes (map (number_from 0) (split_colon text))

-- `n.toString()` in front of `text`; the rounds are bounded by `fuel`.
unfoldable pub decimal_onto : ℕ → ℕ → List ℕ → List ℕ
decimal_onto zero n text = text
decimal_onto (suc fuel) n text =
    let more = decimal_onto fuel (n / 10) ((48 + n % 10) ∷ text) in
    if ltb n 10 then (48 + n) ∷ text else more

-- `text.padStart(2, "0")`
abbrev pad_start : List ℕ → List ℕ
pad_start [] = 48 ∷ 48 ∷ []
pad_start (c ∷ []) = 48 ∷ c ∷ []
pad_start (c ∷ d ∷ cs) = c ∷ d ∷ cs

abbrev two_digits : ℕ → List ℕ
two_digits n = pad_start (decimal_onto (suc n) n [])

-- `minutesToTimeString`
unfoldable pub minutes_to_time_string : ℕ → List ℕ
unfolding decimal_onto
minutes_to_time_string minutes = two_digits (minutes / 60) ++ (58 ∷ two_digits (minutes % 60))

-- Reading what was printed.
unit_digit :
    (n d : ℕ) (text : List ℕ)
    → d < 10
    → number_from n ((48 + d) ∷ text) ≡ number_from (n * 10 + d) text
unfolding number_from
unit_digit n d text h = ground arith

number_from-decimal_onto :
    (fuel n : ℕ) (text : List ℕ)
    → n < fuel
    → number_from 0 (decimal_onto fuel n text) ≡ number_from n text
unfolding number_from decimal_onto
number_from-decimal_onto zero n text h = absurd (omega arith)
number_from-decimal_onto (suc fuel) n text h = elim (Bool-cases (ltb n 10)) [
  | inl small ↦ rw small (ground arith)
  | inr large ↦
      let below : n / 10 < fuel = ground arith in
      let whole : (n / 10) * 10 + n % 10 ≡ n = omega arith in
      rw large (
        number_from-decimal_onto fuel (n / 10) ((48 + n % 10) ∷ text) below
        ∙ unit_digit (n / 10) (n % 10) text (omega arith)
        ∙ ap (λ (k : ℕ). number_from k text) whole)
]

-- No colon among the characters.
abbrev IsPlain : List ℕ → Type 0
IsPlain text = All (λ c. c ≢ 58) text

decimal_onto-IsPlain :
    (fuel n : ℕ) (text : List ℕ) → IsPlain text → IsPlain (decimal_onto fuel n text)
unfolding decimal_onto
decimal_onto-IsPlain zero n text h = h
decimal_onto-IsPlain (suc fuel) n text h = elim (Bool-cases (ltb n 10)) [
  | inl small ↦ let below : n < 10 = ground arith in rw small (λ e. omega arith, h)
  | inr large ↦
      rw large (decimal_onto-IsPlain fuel (n / 10) ((48 + n % 10) ∷ text) (λ e. omega arith, h))
]

pad_start-IsPlain : (text : List ℕ) → IsPlain text → IsPlain (pad_start text)
pad_start-IsPlain [] h = (λ e. omega arith, (λ e. omega arith, tt))
pad_start-IsPlain (c ∷ []) h = (λ e. omega arith, h)
pad_start-IsPlain (c ∷ d ∷ cs) h = h

number_from-pad_start : (text : List ℕ) → number_from 0 (pad_start text) ≡ number_from 0 text
unfolding number_from
number_from-pad_start [] = refl
number_from-pad_start (c ∷ []) = refl
number_from-pad_start (c ∷ d ∷ cs) = refl

split_colon-plain : (text : List ℕ) → IsPlain text → split_colon text ≡ text ∷ []
unfolding split_colon
split_colon-plain [] h = refl
split_colon-plain (c ∷ cs) h = rw (ne→==_false c 58 h.0, split_colon-plain cs h.1)

split_colon-append :
    (text rest : List ℕ)
    → IsPlain text
    → split_colon (text ++ (58 ∷ rest)) ≡ text ∷ split_colon rest
unfolding split_colon
split_colon-append [] rest h = refl
split_colon-append (c ∷ cs) rest h = rw (ne→==_false c 58 h.0, split_colon-append cs rest h.1)

two_digits-IsPlain : (n : ℕ) → IsPlain (two_digits n)
two_digits-IsPlain n =
    pad_start-IsPlain (decimal_onto (suc n) n []) (decimal_onto-IsPlain (suc n) n [] tt)

number_from-two_digits : (n : ℕ) → number_from 0 (two_digits n) ≡ some n
unfolding number_from
number_from-two_digits n =
    number_from-pad_start (decimal_onto (suc n) n [])
    ∙ number_from-decimal_onto (suc n) n [] (omega arith)

-- Every whole number of minutes is read back by `timeStringToMinutes` from the text that
-- `minutesToTimeString` prints for it.
pub time_string_to_minutes-minutes_to_time_string :
    (minutes : ℕ) → time_string_to_minutes (minutes_to_time_string minutes) ≡ some minutes
unfolding time_string_to_minutes minutes_to_time_string
time_string_to_minutes-minutes_to_time_string minutes =
    let whole : (minutes / 60) * 60 + minutes % 60 ≡ minutes = omega arith in
    rw
      (
        split_colon-append (two_digits (minutes / 60)) (two_digits (minutes % 60))
            (two_digits-IsPlain (minutes / 60)),
        split_colon-plain (two_digits (minutes % 60)) (two_digits-IsPlain (minutes % 60)),
        number_from-two_digits (minutes / 60),
        number_from-two_digits (minutes % 60),
      )
      (ap (λ (k : ℕ). some k) whole)
