-- ===== src/LightIntervals/Tests.antt =====
-- Concrete bookings.
use ardenne_padel_v.Prelude.{ℕ, ◌≡◌, refl, List, [], ◌∷◌}
use ardenne_padel_v.LightIntervals.{
  RawInterval, insert_by_start, sort_by_start, merge_from, merge_sorted, merge_intervals,
}
use ardenne_padel_v.LightIntervals.Merged.{is_lit, IsSeparated, merge_intervals_lem}

abbrev sample : List RawInterval
sample =
    record { start_ms = 50; end_ms = 60 }
    ∷ record { start_ms = 10; end_ms = 20 }
    ∷ record { start_ms = 20; end_ms = 30 }
    ∷ []

sample_merged :
    merge_intervals sample
    ≡ record { start_ms = 10; end_ms = 30 } ∷ record { start_ms = 50; end_ms = 60 } ∷ []
unfolding merge_intervals merge_sorted merge_from sort_by_start insert_by_start
sample_merged = refl

merge_intervals_lem_example :
    ((t : ℕ) → is_lit t (merge_intervals sample) ≡ is_lit t sample)
    × IsSeparated (merge_intervals sample)
merge_intervals_lem_example = merge_intervals_lem sample
