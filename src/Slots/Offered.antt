-- ===== src/Slots/Offered.antt =====
-- What `computeAvailableSlots` offers.
use native.Mathlib.Nat.{mul-le-mul_left, mul-one, suc-mul}
use ardenne_padel_v.Prelude.{
  ltb, leb, ◌==◌, if◌then◌else◌, ==_iff, true≢false, Bool-cases, and_true, filter_by, any_by,
  includes, ℕ, zero, suc, ◌+◌, ◌-◌, ◌*◌, ◌<◌, ◌≡◌, refl, sym, ap, ◌∙◌, subst, ◌↔◌, ◌⊎◌, inl, inr,
  Bool, true, false, not, ◌&&◌, ◌||◌, List, [], ◌∷◌, arith,
}
use ardenne_padel_v.Slots.{
  MinuteRange, ComputeAvailableSlotsInput, AvailableSlot, ranges_overlap, is_within_any_window,
  allowed_durations_at, is_free, is_empty, slots_from, day_start, day_end, compute_available_slots,
}
use ardenne_padel_v.Slots.Durations.{allows, includes-allowed_durations_at, includes-filter}

-- A slot is offered at a time for a duration.
abbrev pub is_offered : ℕ → ℕ → List AvailableSlot → Bool
is_offered start duration slots =
    any_by (λ s. s.start_minute == start && includes s.allowed_durations_minutes duration) slots

-- A booking lies in an opening window, overlaps nothing that is blocked, and has a duration that
-- its time allows.
abbrev pub is_bookable : ComputeAvailableSlotsInput → ℕ → ℕ → Bool
is_bookable input start duration =
    any_by (allows start duration) input.duration_windows
    && (any_by (λ w. leb w.start_minute start && leb (start + duration) w.end_minute)
          input.opening_windows
        && not (
            any_by (λ b. ltb start b.end_minute && ltb b.start_minute (start + duration))
              input.blocked_ranges))

is_free_lem : (a b : Bool) → (if not a then false else not b) ≡ (a && not b)
is_free_lem true b = refl
is_free_lem false b = refl

valid-includes :
    (input : ComputeAvailableSlotsInput) (start duration : ℕ)
    → includes
        (filter_by (is_free input start) (allowed_durations_at start input.duration_windows))
        duration
      ≡ is_bookable input start duration
unfolding is_free is_within_any_window ranges_overlap
valid-includes input start duration =
    includes-filter (is_free input start) (allowed_durations_at start input.duration_windows)
      duration
    ∙ rw (includes-allowed_durations_at start duration input.duration_windows)
        (ap (λ b. any_by (allows start duration) input.duration_windows && b) (is_free_lem _ _))

-- One round of the loop.
offered_if :
    (start s d : ℕ) (candidates : List ℕ) (p : ℕ → Bool) (rest : List AvailableSlot)
    → is_offered s d (
        if is_empty candidates
        then rest
        else if is_empty (filter_by p candidates)
        then rest
        else record { start_minute = start; allowed_durations_minutes = filter_by p candidates }
          ∷ rest)
      ≡ ((start == s && includes (filter_by p candidates) d) || is_offered s d rest)
unfolding is_empty
offered_if start s d [] p rest = by_first (start == s) (is_offered s d rest)
  where
    by_first : (a b : Bool) → b ≡ ((a && false) || b)
    by_first true b = refl
    by_first false b = refl
offered_if start s d (c ∷ cs) p rest = by_filtered (filter_by p (c ∷ cs))
  where
    by_first : (a b : Bool) → b ≡ ((a && false) || b)
    by_first true b = refl
    by_first false b = refl

    by_filtered :
        (valid : List ℕ)
        → is_offered s d (
            if is_empty valid
            then rest
            else record { start_minute = start; allowed_durations_minutes = valid } ∷ rest)
          ≡ ((start == s && includes valid d) || is_offered s d rest)
    by_filtered [] = by_first (start == s) (is_offered s d rest)
    by_filtered (v ∷ vs) = refl

offered-slots_from :
    (fuel : ℕ) (input : ComputeAvailableSlotsInput) (last start s d : ℕ)
    → is_offered s d (slots_from (suc fuel) input last start) ≡ (
        ltb start last
        && ((start == s && is_bookable input start d)
            || is_offered s d (slots_from fuel input last (start + input.step_minutes))))
unfolding slots_from
offered-slots_from fuel input last start s d = elim (Bool-cases (ltb start last)) [
  | inl more ↦ rw more (
      offered_if start s d (allowed_durations_at start input.duration_windows) (is_free input start)
        (slots_from fuel input last (start + input.step_minutes))
      ∙ rw (valid-includes input start d) refl)
  | inr over ↦ rw over refl
]

or_true : (a b : Bool) → (a || b) ≡ true → (a ≡ true) ⊎ (b ≡ true)
or_true true b h = inl refl
or_true false b h = inr h

-- A time that the loop comes to.
abbrev pub IsStep : ℕ → ℕ → ℕ → ℕ → Type 0
IsStep step first last s = ((k : ℕ) × (s ≡ first + k * step)) × (s < last)

lt_of_ltb : (a b : ℕ) → ltb a b ≡ true → a < b
lt_of_ltb a b h = ground arith

ltb_of_lt : (a b : ℕ) → a < b → ltb a b ≡ true
ltb_of_lt a b h = ground arith

offered_sound :
    (fuel : ℕ) (input : ComputeAvailableSlotsInput) (last start s d : ℕ)
    → is_offered s d (slots_from fuel input last start) ≡ true
    → IsStep input.step_minutes start last s × (is_bookable input s d ≡ true)
offered_sound zero input last start s d h = unfold slots_from in absurd (true≢false (sym h))
offered_sound (suc fuel) input last start s d h =
    let (more, found) = and_true _ _ (sym (offered-slots_from fuel input last start s d) ∙ h) in
    elim (or_true _ _ found) [
      | inl here ↦
          let (e, ok_here) = and_true _ _ here in
          let same = (==_iff start s).0 e in
          (
            ((0, omega arith), subst (λ x. x < last) same (lt_of_ltb start last more)),
            subst (λ x. is_bookable input x d ≡ true) same ok_here,
          )
      | inr later ↦
          let (((k, e), lt), b) =
            offered_sound fuel input last (start + input.step_minutes) s d later in
          (((suc k, omega (arith, suc-mul k input.step_minutes)), lt), b)
    ]

or_right : (a b : Bool) → b ≡ true → (a || b) ≡ true
or_right true b h = refl
or_right false b h = h

offered_complete :
    (k fuel : ℕ) (input : ComputeAvailableSlotsInput) (last start s d : ℕ)
    → s ≡ start + k * input.step_minutes
    → s < last
    → k < fuel
    → is_bookable input s d ≡ true
    → is_offered s d (slots_from fuel input last start) ≡ true
offered_complete k zero input last start s d e lt f b = absurd (omega arith)
offered_complete zero (suc fuel) input last start s d e lt f b =
    let same : start ≡ s = omega arith in
    let more : ltb start last ≡ true = ground arith in
    offered-slots_from fuel input last start s d ∙ rw (more, (==_iff start s).1 same, same, b) refl
offered_complete (suc k) (suc fuel) input last start s d e lt f b =
    let rest =
      offered_complete k fuel input last (start + input.step_minutes) s d
        (omega (arith, suc-mul k input.step_minutes)) lt (omega arith) b in
    let more : ltb start last ≡ true = ground arith in
    offered-slots_from fuel input last start s d
    ∙ rw (more, rest) (or_right (start == s && is_bookable input start d) true refl)

-- The number of rounds bounds every step of a loop that advances.
rounds : (k step first last s : ℕ) → 0 < step → s ≡ first + k * step → s < last → k < last - first
rounds k step first last s h e lt =
    let le = mul-le-mul_left {m = 1} {n = step} k (omega arith) in omega (arith, mul-one k)

-- The loop begins at midnight, since no window opens before it.
day_start_lem : (ws : List MinuteRange) → day_start ws ≡ 0
unfolding day_start
day_start_lem [] = refl
day_start_lem (w ∷ ws) = rw (day_start_lem ws) (ground arith)

-- The loop goes on until midnight, or until the last window has closed.
abbrev pub is_in_day : List MinuteRange → ℕ → Bool
is_in_day windows s = ltb s 1440 || any_by (λ w. ltb s w.end_minute) windows

or_left : (a b : Bool) → a ≡ true → (a || b) ≡ true
or_left true b h = refl
or_left false b h = absurd (true≢false (sym h))

later_end : (s last e : ℕ) → ltb s (if ltb last e then e else last) ≡ (ltb s last || ltb s e)
later_end s last e = ground arith

or_swap : (a b c : Bool) → ((a || b) || c) ≡ (a || (c || b))
or_swap true b c = refl
or_swap false true true = refl
or_swap false true false = refl
or_swap false false true = refl
or_swap false false false = refl

day_end_lem : (ws : List MinuteRange) (s : ℕ) → ltb s (day_end ws) ≡ is_in_day ws s
unfolding day_end
day_end_lem [] s = elim (Bool-cases (ltb s 1440)) [ inl e ↦ rw e | inr e ↦ rw e ]
day_end_lem (w ∷ ws) s =
    later_end s (day_end ws) w.end_minute
    ∙ rw (day_end_lem ws s)
        (or_swap (ltb s 1440) (any_by (λ v. ltb s v.end_minute) ws) (ltb s w.end_minute))

-- With a positive step, `computeAvailableSlots` offers a time and a duration exactly when the time is
-- a multiple of the step from midnight on, before the next midnight or the end of an opening window,
-- a duration window that the time lies in allows the duration, the booking lies in an opening
-- window, and it overlaps nothing that is blocked.
pub compute_available_slots_lem :
    (input : ComputeAvailableSlotsInput) (s d : ℕ)
    → 0 < input.step_minutes
    → (is_offered s d (compute_available_slots input) ≡ true) ↔ (
        ((k : ℕ) × (s ≡ k * input.step_minutes))
        × (is_in_day input.opening_windows s ≡ true)
        × (is_bookable input s d ≡ true))
unfolding compute_available_slots
compute_available_slots_lem input s d h =
    let first = day_start input.opening_windows in
    let last = day_end input.opening_windows in
    let midnight = day_start_lem input.opening_windows in
    let in_day = day_end_lem input.opening_windows s in
    (
      λ offered.
          let (((k, e), lt), b) = offered_sound (last - first) input last first s d offered in
          ((k, omega (arith, midnight, e)), sym in_day ∙ ltb_of_lt s last lt, b),
      λ ((k, e), i, b).
          let e' : s ≡ first + k * input.step_minutes = omega (arith, midnight, e) in
          let lt = lt_of_ltb s last (in_day ∙ i) in
          offered_complete k (last - first) input last first s d e' lt
            (rounds k input.step_minutes first last s h e' lt) b,
    )
