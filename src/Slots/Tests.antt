-- ===== src/Slots/Tests.antt =====
-- A court that is open from 09:00 to 12:00 and booked from 10:00 to 11:00.
use ardenne_padel_v.Prelude.{ℕ, ◌*◌, ◌≡◌, refl, ◌↔◌, true, List, [], ◌∷◌, arith}
use ardenne_padel_v.Slots.{
  ComputeAvailableSlotsInput, AvailableSlot, ranges_overlap, is_within_any_window, set_add, add_all,
  durations_from, insert_number, sort_numbers, allowed_durations_at, is_free, is_empty, slots_from,
  day_start, day_end, compute_available_slots,
}
use ardenne_padel_v.Slots.Offered.{is_offered, is_bookable, is_in_day, compute_available_slots_lem}

abbrev sample_day : ComputeAvailableSlotsInput
sample_day = record {
  opening_windows = record { start_minute = 540; end_minute = 720 } ∷ [];
  duration_windows =
      record { start_minute = 540; end_minute = 720; allowed_durations_minutes = 90 ∷ 60 ∷ [] }
      ∷ [];
  blocked_ranges = record { start_minute = 600; end_minute = 660 } ∷ [];
  step_minutes = 60;
}

compute_available_slots_lem_example :
    (is_offered 540 60 (compute_available_slots sample_day) ≡ true) ↔ (
      ((k : ℕ) × (540 ≡ k * 60))
      × (is_in_day sample_day.opening_windows 540 ≡ true)
      × (is_bookable sample_day 540 60 ≡ true))
compute_available_slots_lem_example = compute_available_slots_lem sample_day 540 60 (omega arith)

abbrev IsSlots : List AvailableSlot → Type 0
IsSlots slots =
    slots
    ≡ record { start_minute = 540; allowed_durations_minutes = 60 ∷ [] }
      ∷ record { start_minute = 660; allowed_durations_minutes = 60 ∷ [] }
      ∷ []

sample-IsSlots : IsSlots (compute_available_slots sample_day)
unfolding compute_available_slots slots_from is_empty day_start day_end allowed_durations_at
    sort_numbers insert_number durations_from add_all set_add is_free is_within_any_window
    ranges_overlap
sample-IsSlots = refl
