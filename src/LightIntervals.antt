-- ===== src/LightIntervals.antt =====
-- apps/api/src/modules/automation/light-interval-merger.ts: when the lights of a court are on. An
-- instant is a number of milliseconds (`getTime()`).
pub mod Merged
mod Tests
use Prim.Native.String.{String}
use ardenne_padel_v.Prelude.{ltb, leb, if◌then◌else◌, ℕ, List, [], ◌∷◌, map}

pub record RawInterval : Type 0 where
  pub start_ms : ℕ
  pub end_ms : ℕ

pub record MergedInterval : Type 0 where
  pub starts_at : String
  pub ends_at : String

-- `sort` with `(a, b) => a.start.getTime() - b.start.getTime()`, which keeps the order of equals
unfoldable pub insert_by_start : RawInterval → List RawInterval → List RawInterval
insert_by_start x [] = x ∷ []
insert_by_start x (y ∷ ys) =
    let rest = insert_by_start x ys in if leb x.start_ms y.start_ms then x ∷ y ∷ ys else y ∷ rest

unfoldable pub sort_by_start : List RawInterval → List RawInterval
sort_by_start [] = []
sort_by_start (x ∷ xs) = insert_by_start x (sort_by_start xs)

-- The loop, with the interval that was pushed last.
unfoldable pub merge_from : RawInterval → List RawInterval → List RawInterval
merge_from last [] = last ∷ []
merge_from last (current ∷ rest) =
    let longer = merge_from (record last { end_ms = current.end_ms }) rest in
    let same = merge_from last rest in
    let next = merge_from current rest in
    if leb current.start_ms last.end_ms
    then if ltb last.end_ms current.end_ms then longer else same
    else last ∷ next

unfoldable pub merge_sorted : List RawInterval → List RawInterval
unfolding merge_from
merge_sorted [] = []
merge_sorted (x ∷ xs) = merge_from x xs

-- `merged`, before its instants are written as text
unfoldable pub merge_intervals : List RawInterval → List RawInterval
unfolding merge_sorted sort_by_start
merge_intervals raw = merge_sorted (sort_by_start raw)

-- `mergeLightIntervals`, where `to_iso_string` is `Date.prototype.toISOString`
pub merge_light_intervals : (ℕ → String) → List RawInterval → List MergedInterval
unfolding merge_intervals
merge_light_intervals to_iso_string raw =
    map (λ i. record { starts_at = to_iso_string i.start_ms; ends_at = to_iso_string i.end_ms })
      (merge_intervals raw)
