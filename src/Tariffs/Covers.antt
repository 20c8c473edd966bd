-- ===== src/Tariffs/Covers.antt =====
-- When a rule concerns what is asked for, against the tests of `matches` (tariff-resolver.ts).
use ardenne_padel_v.Prelude.{
  ◌==◌, if◌then◌else◌, ==_iff, true≢false, Bool-cases, Among, includes, ℕ, ◌≤◌, ◌<◌, ◌≡◌, refl, sym,
  inl, inr, Bool, true, false, not, Option, none, some, List, [], ◌∷◌, arith,
}
use ardenne_padel_v.Slots.TimeText.{time_string_to_minutes}
use ardenne_padel_v.Tariffs.{
  CourtType, simple, double, TariffRuleCandidate, ResolveTariffInput, unset_or_id, same_court_type,
  unset_or_type, within, matches,
}

-- A rule concerns the court and its type, the day, the duration and the time that are asked for.
pub record Covers (rule : TariffRuleCandidate) (input : ResolveTariffInput) : Type 0 where
  pub court : (c : ℕ) → rule.court_id ≡ some c → c ≡ input.court_id
  pub court_kind : (t : CourtType) → rule.court_type ≡ some t → input.court_type ≡ some t
  pub day : Among input.day_of_week rule.days_of_week
  pub duration : rule.duration_minutes ≡ input.duration_minutes
  pub hours :
      (start end asked : ℕ) × (time_string_to_minutes rule.start_time ≡ some start)
      × (time_string_to_minutes rule.end_time ≡ some end)
      × (time_string_to_minutes input.start_time ≡ some asked)
      × (start ≤ asked)
      × (asked < end)

unset_or_id→eq : (o : Option ℕ) (b : ℕ) → unset_or_id o b ≡ true → (c : ℕ) → o ≡ some c → c ≡ b
unset_or_id→eq none b t c e = cc
unset_or_id→eq (some a) b t c e = ground (arith, (==_iff a b).0 t)

eq→unset_or_id : (o : Option ℕ) (b : ℕ) → ((c : ℕ) → o ≡ some c → c ≡ b) → unset_or_id o b ≡ true
eq→unset_or_id none b h = refl
eq→unset_or_id (some a) b h = (==_iff a b).1 (h a refl)

same_court_type→eq : (a b : CourtType) → same_court_type a b ≡ true → a ≡ b
same_court_type→eq simple simple t = refl
same_court_type→eq simple double t = cc
same_court_type→eq double simple t = cc
same_court_type→eq double double t = refl

unset_or_type→eq :
    (o b : Option CourtType) → unset_or_type o b ≡ true → (c : CourtType) → o ≡ some c → b ≡ some c
unset_or_type→eq none b t c e = cc
unset_or_type→eq (some a) none t c e = cc
unset_or_type→eq (some a) (some b) t c e = cc (same_court_type→eq a b t)

pub same_court_type_refl : (a : CourtType) → same_court_type a a ≡ true
same_court_type_refl simple = refl
same_court_type_refl double = refl

eq→unset_or_type :
    (o b : Option CourtType)
    → ((c : CourtType) → o ≡ some c → b ≡ some c)
    → unset_or_type o b ≡ true
eq→unset_or_type none b h = refl
eq→unset_or_type (some a) b h = rw (h a refl) (same_court_type_refl a)

Among→includes : (xs : List ℕ) (n : ℕ) → Among n xs → includes xs n ≡ true
Among→includes [] n h = absurd h
Among→includes (x ∷ xs) n (inl here) = rw ((==_iff x n).1 here)
Among→includes (x ∷ xs) n (inr later) = elim (Bool-cases (x == n)) [
  | inl here ↦ rw here
  | inr other ↦ rw other (Among→includes xs n later)
]

hours→within :
    (start end asked : Option ℕ) (s e a : ℕ)
    → start ≡ some s
    → end ≡ some e
    → asked ≡ some a
    → s ≤ a
    → a < e
    → within start end asked ≡ true
hours→within start end asked s e a p q r le lt = rw (p, q, r) (ground arith)

includes→Among : (xs : List ℕ) (n : ℕ) → includes xs n ≡ true → Among n xs
includes→Among [] n t = absurd (true≢false (sym t))
includes→Among (x ∷ xs) n t = elim (Bool-cases (x == n)) [
  | inl here ↦ inl ((==_iff x n).0 here)
  | inr other ↦ inr (includes→Among xs n (rw other at t))
]

within→hours :
    (start end asked : Option ℕ)
    → within start end asked ≡ true
    → (s e a : ℕ) × (start ≡ some s) × (end ≡ some e) × (asked ≡ some a) × (s ≤ a) × (a < e)
within→hours (some s) (some e) (some a) t = (s, e, a, refl, refl, refl, ground arith, ground arith)
within→hours (some s) (some e) none t = absurd (true≢false (sym t))
within→hours (some s) none a t = absurd (true≢false (sym t))
within→hours none e a t = absurd (true≢false (sym t))

-- A guard that returned early on a failed test was passed.
passed : (c rest : Bool) → (if not c then false else rest) ≡ true → (c ≡ true) × (rest ≡ true)
passed true rest t = (refl, t)
passed false rest t = absurd (true≢false (sym t))

pub matches→Covers :
    (rule : TariffRuleCandidate) (input : ResolveTariffInput)
    → matches rule input ≡ true
    → Covers rule input
unfolding matches
matches→Covers rule input t =
    let (court, t1) = passed (unset_or_id rule.court_id input.court_id) _ t in
    let (kind, t2) = passed (unset_or_type rule.court_type input.court_type) _ t1 in
    let (day, t3) = passed (includes rule.days_of_week input.day_of_week) _ t2 in
    let (lasting, t4) = passed (rule.duration_minutes == input.duration_minutes) _ t3 in
    record {
      court = unset_or_id→eq rule.court_id input.court_id court;
      court_kind = unset_or_type→eq rule.court_type input.court_type kind;
      day = includes→Among rule.days_of_week input.day_of_week day;
      duration = (==_iff _ _).0 lasting;
      hours =
          within→hours (time_string_to_minutes rule.start_time)
            (time_string_to_minutes rule.end_time) (time_string_to_minutes input.start_time) t4;
    }

pub Covers→matches :
    (rule : TariffRuleCandidate) (input : ResolveTariffInput)
    → Covers rule input
    → matches rule input ≡ true
unfolding matches
Covers→matches rule input c =
    let (s, e, a, p, q, r, le, lt) = c.hours in
    rw
      (
        eq→unset_or_id rule.court_id input.court_id c.court,
        eq→unset_or_type rule.court_type input.court_type c.court_kind,
        Among→includes rule.days_of_week input.day_of_week c.day,
        (==_iff _ _).1 c.duration,
      )
      (hours→within _ _ _ s e a p q r le lt)
