-- ===== src/Lessons/Tests.antt =====
-- A lesson of an hour for one student, with two courts.
use ardenne_padel_v.Prelude.{◌≡◌, ◌&&◌, [], ◌∷◌, arith}
use ardenne_padel_v.Lessons.{ComputePossibleLessonSlotsInput, compute_possible_lesson_slots}
use ardenne_padel_v.Lessons.Possible.{is_possible, is_held, all_free}
use ardenne_padel_v.Lessons.Courts.{is_court_free, compute_possible_lesson_slots_lem}

abbrev sample_lesson : ComputePossibleLessonSlotsInput
sample_lesson = record {
  date = "2026-09-15";
  teacher_id = 1;
  teacher_windows = record { start_minute = 540; end_minute = 720 } ∷ [];
  student_ids = 2 ∷ [];
  student_windows_by_student = (2, record { start_minute = 600; end_minute = 780 } ∷ []) ∷ [];
  court_slots_by_court =
      (
        7,
        record { court_id = 7; start_minute = 600; allowed_durations_minutes = 60 ∷ 90 ∷ [] } ∷ [],
      )
      ∷ (8, record { court_id = 8; start_minute = 600; allowed_durations_minutes = 60 ∷ [] } ∷ [])
      ∷ [];
  duration_minutes = 60;
}

compute_possible_lesson_slots_lem_example :
    is_possible 8 600 660 (compute_possible_lesson_slots sample_lesson) ≡ (
      is_court_free 8 600 60 sample_lesson.court_slots_by_court
      && (is_held 600 660 sample_lesson.teacher_windows
          && all_free 600 660 sample_lesson.student_windows_by_student sample_lesson.student_ids))
compute_possible_lesson_slots_lem_example =
    compute_possible_lesson_slots_lem sample_lesson 8 600 (omega arith) (omega arith)
