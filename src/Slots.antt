-- ===== src/Slots.antt =====
-- apps/api/src/modules/availability/slot-calculator.ts: the free slots of a court on one day. Times
-- are minutes from midnight.
pub mod Durations
pub mod Offered
pub mod TimeText
mod Tests
use ardenne_padel_v.Prelude.{
  ltb, leb, if◌then◌else◌, filter_by, any_by, includes, ℕ, zero, suc, ◌+◌, ◌-◌, ◌*◌, Bool, true,
  false, not, ◌&&◌, List, [], ◌∷◌, ◌++◌,
}

pub record MinuteRange : Type 0 where
  pub start_minute : ℕ
  pub end_minute : ℕ

pub record DurationWindow : Type 0 where
  pub start_minute : ℕ
  pub end_minute : ℕ
  pub allowed_durations_minutes : List ℕ

pub record ComputeAvailableSlotsInput : Type 0 where
  pub opening_windows : List MinuteRange
  pub duration_windows : List DurationWindow
  pub blocked_ranges : List MinuteRange
  pub step_minutes : ℕ

pub record AvailableSlot : Type 0 where
  pub start_minute : ℕ
  pub allowed_durations_minutes : List ℕ

-- `rangesOverlap`
unfoldable pub ranges_overlap : MinuteRange → MinuteRange → Bool
ranges_overlap a b = ltb a.start_minute b.end_minute && ltb b.start_minute a.end_minute

-- `isWithinAnyWindow`
unfoldable pub is_within_any_window : MinuteRange → List MinuteRange → Bool
is_within_any_window range windows =
    any_by (λ w. leb w.start_minute range.start_minute && leb range.end_minute w.end_minute) windows

-- `durations.add(d)` on a set that keeps the order of insertion
unfoldable pub set_add : List ℕ → ℕ → List ℕ
set_add set d = if includes set d then set else set ++ (d ∷ [])

unfoldable pub add_all : List ℕ → List ℕ → List ℕ
unfolding set_add
add_all set [] = set
add_all set (d ∷ ds) = add_all (set_add set d) ds

abbrev pub starts_in : ℕ → DurationWindow → Bool
starts_in start w = leb w.start_minute start && ltb start w.end_minute

-- The two loops of `allowedDurationsAt`
unfoldable pub durations_from : List ℕ → ℕ → List DurationWindow → List ℕ
unfolding add_all
durations_from set start [] = set
durations_from set start (w ∷ ws) =
    durations_from (if starts_in start w then add_all set w.allowed_durations_minutes else set)
      start ws

-- `sort((a, b) => a - b)`
unfoldable pub insert_number : ℕ → List ℕ → List ℕ
insert_number x [] = x ∷ []
insert_number x (y ∷ ys) = let rest = insert_number x ys in if leb x y then x ∷ y ∷ ys else y ∷ rest

unfoldable pub sort_numbers : List ℕ → List ℕ
unfolding insert_number
sort_numbers [] = []
sort_numbers (x ∷ xs) = insert_number x (sort_numbers xs)

-- `allowedDurationsAt`
unfoldable pub allowed_durations_at : ℕ → List DurationWindow → List ℕ
unfolding sort_numbers durations_from
allowed_durations_at start windows = sort_numbers (durations_from [] start windows)

-- The test of the `filter`
unfoldable pub is_free : ComputeAvailableSlotsInput → ℕ → ℕ → Bool
unfolding is_within_any_window ranges_overlap
is_free input start duration =
    let range : MinuteRange = record { start_minute = start; end_minute = start + duration } in
    if not (is_within_any_window range input.opening_windows)
    then false
    else not (any_by (λ blocked. ranges_overlap range blocked) input.blocked_ranges)

unfoldable pub is_empty : List ℕ → Bool
is_empty [] = true
is_empty (_ ∷ _) = false

-- The `for` loop from `start` on, for at most `fuel` rounds.
unfoldable pub slots_from : ℕ → ComputeAvailableSlotsInput → ℕ → ℕ → List AvailableSlot
unfolding is_empty
slots_from zero input day_end start = []
slots_from (suc fuel) input day_end start =
    let rest = slots_from fuel input day_end (start + input.step_minutes) in
    let candidate_durations = allowed_durations_at start input.duration_windows in
    let valid_durations = filter_by (is_free input start) candidate_durations in
    if not (ltb start day_end)
    then []
    else if is_empty candidate_durations
    then rest
    else if is_empty valid_durations
    then rest
    else record { start_minute = start; allowed_durations_minutes = valid_durations } ∷ rest

-- `Math.min(...starts, 0)` and `Math.max(...ends, 24 * 60)`
unfoldable pub day_start : List MinuteRange → ℕ
day_start [] = 0
day_start (w ∷ ws) = if ltb w.start_minute (day_start ws) then w.start_minute else day_start ws

unfoldable pub day_end : List MinuteRange → ℕ
day_end [] = 24 * 60
day_end (w ∷ ws) = if ltb (day_end ws) w.end_minute then w.end_minute else day_end ws

-- `computeAvailableSlots`. With a step of zero the source does not end; with any other one the
-- number of minutes bounds the rounds.
unfoldable pub compute_available_slots : ComputeAvailableSlotsInput → List AvailableSlot
compute_available_slots input =
    let first = day_start input.opening_windows in
    let last = day_end input.opening_windows in slots_from (last - first) input last first
