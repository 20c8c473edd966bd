-- ===== src/Lessons.antt =====
-- apps/api/src/modules/academy/academy-scheduling.ts: when a lesson can take place. Identifiers are
-- numbers; a record keyed by an identifier is an association list in the order of its keys.
pub mod Possible
pub mod Courts
mod Tests
use Prim.Native.String.{String}
use ardenne_padel_v.Prelude.{
  ltb, leb, ◌==◌, if◌then◌else◌, length, any_by, includes, ℕ, ◌+◌, Bool, not, ◌&&◌, Option, none,
  some, List, [], ◌∷◌, ◌++◌,
}
use ardenne_padel_v.Slots.{MinuteRange}

pub record CourtAvailableSlot : Type 0 where
  pub court_id : ℕ
  pub start_minute : ℕ
  pub allowed_durations_minutes : List ℕ

pub record PossibleLessonSlot : Type 0 where
  pub date : String
  pub start_minute : ℕ
  pub end_minute : ℕ
  pub duration_minutes : ℕ
  pub teacher_id : ℕ
  pub student_ids : List ℕ
  pub court_ids : List ℕ

pub record ComputePossibleLessonSlotsInput : Type 0 where
  pub date : String
  pub teacher_id : ℕ
  pub teacher_windows : List MinuteRange
  pub student_ids : List ℕ
  pub student_windows_by_student : List (ℕ × List MinuteRange)
  pub court_slots_by_court : List (ℕ × List CourtAvailableSlot)
  pub duration_minutes : ℕ

-- `Math.max` and `Math.min`
abbrev pub max_ℕ : ℕ → ℕ → ℕ
max_ℕ a b = if ltb a b then b else a

abbrev pub min_ℕ : ℕ → ℕ → ℕ
min_ℕ a b = if ltb a b then a else b

-- `intersectRange`
unfoldable pub intersect_range : MinuteRange → MinuteRange → Option MinuteRange
intersect_range a b =
    let start = max_ℕ a.start_minute b.start_minute in
    let end_of = min_ℕ a.end_minute b.end_minute in
    if ltb start end_of then some (record { start_minute = start; end_minute = end_of }) else none

-- The inner loop of `intersectRangeLists`
unfoldable pub intersect_with : MinuteRange → List MinuteRange → List MinuteRange
unfolding intersect_range
intersect_with a [] = []
intersect_with a (b ∷ bs) =
    let rest = intersect_with a bs in
    elim (intersect_range a b) [ some overlap ↦ overlap ∷ rest | none ↦ rest ]

-- `intersectRangeLists`
unfoldable pub intersect_range_lists : List MinuteRange → List MinuteRange → List MinuteRange
unfolding intersect_with
intersect_range_lists [] bs = []
intersect_range_lists (a ∷ more) bs = intersect_with a bs ++ intersect_range_lists more bs

-- `studentWindowsByStudent[studentId] ?? []`
unfoldable pub windows_of : ℕ → List (ℕ × List MinuteRange) → List MinuteRange
windows_of student [] = []
windows_of student ((id, windows) ∷ rest) =
    let found = windows_of student rest in if id == student then windows else found

-- The loop over the students, which stops when nothing is left.
unfoldable pub common_windows :
    List (ℕ × List MinuteRange) → List MinuteRange → List ℕ → List MinuteRange
unfolding windows_of
common_windows by_student windows [] = windows
common_windows by_student windows (student ∷ students) =
    let left = intersect_range_lists windows (windows_of student by_student) in
    let rest = common_windows by_student left students in if length left == 0 then left else rest

abbrev pub same_times : ℕ → ℕ → PossibleLessonSlot → Bool
same_times start end_of s = s.start_minute == start && s.end_minute == end_of

-- `existing.courtIds.push(courtId)` on the first slot with these times, or a new slot at the end
unfoldable pub add_court : PossibleLessonSlot → List PossibleLessonSlot → List PossibleLessonSlot
add_court new [] = new ∷ []
add_court new (s ∷ slots) =
    let rest = add_court new slots in
    if same_times new.start_minute new.end_minute s
    then record s { court_ids = s.court_ids ++ new.court_ids } ∷ slots
    else s ∷ rest

abbrev pub lesson_slot : ComputePossibleLessonSlotsInput → ℕ → ℕ → PossibleLessonSlot
lesson_slot input court start = record {
  date = input.date;
  start_minute = start;
  end_minute = start + input.duration_minutes;
  duration_minutes = input.duration_minutes;
  teacher_id = input.teacher_id;
  student_ids = input.student_ids;
  court_ids = court ∷ [];
}

abbrev pub holds_lesson : ℕ → ℕ → MinuteRange → Bool
holds_lesson start end_of w = leb w.start_minute start && leb end_of w.end_minute

-- The body of the two loops over the courts and their slots
unfoldable pub add_slot :
    ComputePossibleLessonSlotsInput
    → List MinuteRange
    → ℕ
    → List PossibleLessonSlot
    → CourtAvailableSlot
    → List PossibleLessonSlot
unfolding add_court
add_slot input common court slots slot =
    if not (includes slot.allowed_durations_minutes input.duration_minutes)
    then slots
    else if not (
        any_by (holds_lesson slot.start_minute (slot.start_minute + input.duration_minutes)) common)
    then slots
    else add_court (lesson_slot input court slot.start_minute) slots

unfoldable pub add_slots :
    ComputePossibleLessonSlotsInput
    → List MinuteRange
    → ℕ
    → List PossibleLessonSlot
    → List CourtAvailableSlot
    → List PossibleLessonSlot
add_slots input common court slots [] = slots
add_slots input common court slots (s ∷ rest) =
    add_slots input common court (add_slot input common court slots s) rest

unfoldable pub add_courts :
    ComputePossibleLessonSlotsInput
    → List MinuteRange
    → List PossibleLessonSlot
    → List (ℕ × List CourtAvailableSlot)
    → List PossibleLessonSlot
add_courts input common slots [] = slots
add_courts input common slots ((court, court_slots) ∷ rest) =
    add_courts input common (add_slots input common court slots court_slots) rest

-- `slots.sort((a, b) => a.startMinute - b.startMinute)`
unfoldable pub insert_slot : PossibleLessonSlot → List PossibleLessonSlot → List PossibleLessonSlot
insert_slot x [] = x ∷ []
insert_slot x (y ∷ ys) =
    let rest = insert_slot x ys in
    if leb x.start_minute y.start_minute then x ∷ y ∷ ys else y ∷ rest

unfoldable pub sort_slots : List PossibleLessonSlot → List PossibleLessonSlot
unfolding insert_slot
sort_slots [] = []
sort_slots (x ∷ xs) = insert_slot x (sort_slots xs)

-- `computePossibleLessonSlots`
unfoldable pub compute_possible_lesson_slots :
    ComputePossibleLessonSlotsInput → List PossibleLessonSlot
compute_possible_lesson_slots input =
    let common =
      common_windows input.student_windows_by_student input.teacher_windows input.student_ids in
    if length input.student_ids == 0
    then []
    else if length common == 0
    then []
    else sort_slots (add_courts input common [] input.court_slots_by_court)
