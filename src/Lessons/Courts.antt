-- ===== src/Lessons/Courts.antt =====
-- The courts that `computePossibleLessonSlots` lists for a lesson.
use ardenne_padel_v.Prelude.{
  leb, ◌==◌, ==_iff, Bool-cases, or_assoc, or_false, or_swap, and_false, length, any_by, includes,
  includes-append, ℕ, ◌+◌, ◌<◌, ◌≡◌, refl, sym, ap, ◌∙◌, subst, inl, inr, Bool, true, false, ◌&&◌,
  ◌||◌, List, [], ◌∷◌, arith,
}
use ardenne_padel_v.Lessons.{
  CourtAvailableSlot, PossibleLessonSlot, ComputePossibleLessonSlotsInput, common_windows,
  same_times, add_court, lesson_slot, holds_lesson, add_slot, add_slots, add_courts, insert_slot,
  sort_slots, compute_possible_lesson_slots,
}
use ardenne_padel_v.Lessons.Possible.{
  is_possible, is_held, all_free, held-empty, held-common_windows,
}
use ardenne_padel_v.Slots.{MinuteRange}

and_split : (a b c d : Bool) → ((a && (b || c)) || d) ≡ (((a && b) || d) || (a && c))
and_split true true c d = refl
and_split true false true true = refl
and_split true false true false = refl
and_split true false false true = refl
and_split true false false false = refl
and_split false b c true = refl
and_split false b c false = refl

-- Slots with the times of a third one have the times of each other.
same_times_of :
    (st en : ℕ) (new s : PossibleLessonSlot)
    → same_times new.start_minute new.end_minute s ≡ true
    → same_times st en s ≡ same_times st en new
same_times_of st en new s h = ground arith

possible-add_court :
    (court st en : ℕ) (new : PossibleLessonSlot) (slots : List PossibleLessonSlot)
    → is_possible court st en (add_court new slots)
      ≡ (is_possible court st en slots || (same_times st en new && includes new.court_ids court))
unfolding add_court
possible-add_court court st en new [] =
    or_false (same_times st en new && includes new.court_ids court)
possible-add_court court st en new (s ∷ slots) =
    elim (Bool-cases (same_times new.start_minute new.end_minute s)) [
      | inl e ↦
          rw (e, includes-append s.court_ids new.court_ids court)
            (and_split (same_times st en s) (includes s.court_ids court)
                (includes new.court_ids court) (is_possible court st en slots)
              ∙ ap
                  (λ b.
                    ((same_times st en s && includes s.court_ids court)
                      || is_possible court st en slots)
                    || (b && includes new.court_ids court))
                  (same_times_of st en new s e))
      | inr e ↦
          rw (e, possible-add_court court st en new slots)
            (sym (
              or_assoc (same_times st en s && includes s.court_ids court)
                (is_possible court st en slots) _))
    ]

-- A free slot of a court starts at a time and allows the lesson's duration.
abbrev pub starts_lesson : ℕ → ℕ → CourtAvailableSlot → Bool
starts_lesson start duration slot =
    slot.start_minute == start && includes slot.allowed_durations_minutes duration

-- A court has such a slot.
abbrev pub is_court_free : ℕ → ℕ → ℕ → List (ℕ × List CourtAvailableSlot) → Bool
is_court_free court start duration courts =
    any_by (λ (id, slots). id == court && any_by (starts_lesson start duration) slots) courts

gather :
    (a c x y f : Bool) → ((a || (c && (x && f))) || (c && (y && f))) ≡ (a || (c && ((x || y) && f)))
gather true c x y f = refl
gather false false x y f = refl
gather false true true true true = refl
gather false true true y false = and_false y
gather false true true false true = refl
gather false true false y f = refl

collect : (a c x y f : Bool) → ((a || (c && (x && f))) || (y && f)) ≡ (a || (((c && x) || y) && f))
collect true c x y f = refl
collect false false x y f = refl
collect false true true true true = refl
collect false true true y false = and_false y
collect false true true false true = refl
collect false true false y f = refl

module _ (input : ComputePossibleLessonSlotsInput) (common : List MinuteRange) (court st : ℕ) where
  abbrev ends : ℕ
  ends = st + input.duration_minutes

  abbrev fits : Bool
  fits = is_held st ends common

  ends_equal : (a : ℕ) → a ≡ st → (a + input.duration_minutes == ends) ≡ true
  ends_equal a e = ground arith

  add_nothing : (a : Bool) (b c : Bool) → b ≡ false → a ≡ (a || (c && b))
  add_nothing true b c h = refl
  add_nothing false b true h = sym h
  add_nothing false b false h = refl

  court_alone : (a c : Bool) → (a || (true && (c || false))) ≡ (a || (c && true))
  court_alone true c = refl
  court_alone false true = refl
  court_alone false false = refl

  possible-add_slot :
      (c : ℕ) (slots : List PossibleLessonSlot) (slot : CourtAvailableSlot)
      → is_possible court st ends (add_slot input common c slots slot) ≡ (
          is_possible court st ends slots
          || (c == court && (starts_lesson st input.duration_minutes slot && fits)))
  unfolding add_slot
  possible-add_slot c slots slot =
      let before = is_possible court st ends slots in
      elim (Bool-cases (slot.start_minute == st)) [
        | inr other ↦
            elim (Bool-cases (includes slot.allowed_durations_minutes input.duration_minutes)) [
              | inr short ↦ rw (short, other) (add_nothing before false (c == court) refl)
              | inl long ↦
                  elim (Bool-cases (
                    any_by
                      (holds_lesson slot.start_minute (slot.start_minute + input.duration_minutes))
                      common)) [
                        | inr out ↦
                            rw (long, out, other) (add_nothing before false (c == court) refl)
                        | inl held ↦
                            rw
                              (
                                long,
                                held,
                                possible-add_court court st ends
                                    (lesson_slot input c slot.start_minute) slots,
                                other,
                              )
                              (ap (λ b. before || b) (sym (and_false (c == court))))
                      ]
            ]
        | inl same ↦
            let e : slot.start_minute ≡ st = (==_iff slot.start_minute st).0 same in
            elim (Bool-cases (includes slot.allowed_durations_minutes input.duration_minutes)) [
              | inr short ↦ rw (short, same) (add_nothing before false (c == court) refl)
              | inl long ↦ elim (Bool-cases fits) [
                | inr out ↦
                    let out' : any_by
                          (holds_lesson slot.start_minute
                            (slot.start_minute + input.duration_minutes))
                          common
                        ≡ false =
                      subst
                        (λ x. any_by (holds_lesson x (x + input.duration_minutes)) common ≡ false)
                        (sym e) out in
                    rw (long, out', same, out) (add_nothing before false (c == court) refl)
                | inl held ↦
                    let held' : any_by
                          (holds_lesson slot.start_minute
                            (slot.start_minute + input.duration_minutes))
                          common
                        ≡ true =
                      subst
                        (λ x. any_by (holds_lesson x (x + input.duration_minutes)) common ≡ true)
                        (sym e) held in
                    rw
                      (
                        long,
                        held',
                        possible-add_court court st ends (lesson_slot input c slot.start_minute)
                            slots,
                        same,
                        held,
                        ends_equal slot.start_minute e,
                      )
                      (court_alone before (c == court))
              ]
            ]
      ]

  possible-add_slots :
      (c : ℕ) (slots : List PossibleLessonSlot) (free : List CourtAvailableSlot)
      → is_possible court st ends (add_slots input common c slots free) ≡ (
          is_possible court st ends slots
          || (c == court && (any_by (starts_lesson st input.duration_minutes) free && fits)))
  unfolding add_slots
  possible-add_slots c slots [] =
      add_nothing (is_possible court st ends slots) false (c == court) refl
  possible-add_slots c slots (s ∷ free) =
      possible-add_slots c (add_slot input common c slots s) free
      ∙ rw (possible-add_slot c slots s) (
          gather (is_possible court st ends slots) (c == court)
            (starts_lesson st input.duration_minutes s)
            (any_by (starts_lesson st input.duration_minutes) free) fits)

  possible-add_courts :
      (slots : List PossibleLessonSlot) (courts : List (ℕ × List CourtAvailableSlot))
      → is_possible court st ends (add_courts input common slots courts) ≡ (
          is_possible court st ends slots
          || (is_court_free court st input.duration_minutes courts && fits))
  unfolding add_courts
  possible-add_courts slots [] = sym (or_false (is_possible court st ends slots))
  possible-add_courts slots ((c, free) ∷ courts) =
      possible-add_courts (add_slots input common c slots free) courts
      ∙ rw (possible-add_slots c slots free) (
          collect (is_possible court st ends slots) (c == court)
            (any_by (starts_lesson st input.duration_minutes) free)
            (is_court_free court st input.duration_minutes courts) fits)

possible-insert :
    (court st en : ℕ) (x : PossibleLessonSlot) (xs : List PossibleLessonSlot)
    → is_possible court st en (insert_slot x xs) ≡ is_possible court st en (x ∷ xs)
unfolding insert_slot
possible-insert court st en x [] = refl
possible-insert court st en x (y ∷ ys) = elim (Bool-cases (leb x.start_minute y.start_minute)) [
  | inl e ↦ rw e refl
  | inr e ↦
      rw (e, possible-insert court st en x ys)
        (or_swap (same_times st en y && includes y.court_ids court)
          (same_times st en x && includes x.court_ids court) (is_possible court st en ys))
]

possible-sort :
    (court st en : ℕ) (xs : List PossibleLessonSlot)
    → is_possible court st en (sort_slots xs) ≡ is_possible court st en xs
unfolding sort_slots
possible-sort court st en [] = refl
possible-sort court st en (x ∷ xs) =
    possible-insert court st en x (sort_slots xs)
    ∙ ap (λ b. (same_times st en x && includes x.court_ids court) || b)
        (possible-sort court st en xs)

-- For a lesson of a positive length and at least one student, a court is listed at a time exactly
-- when a free slot of the court starts there and allows the length, the teacher has a window that
-- holds the whole lesson, and so has each student.
pub compute_possible_lesson_slots_lem :
    (input : ComputePossibleLessonSlotsInput) (court start : ℕ)
    → 0 < input.duration_minutes
    → 0 < length input.student_ids
    → let end_of = start + input.duration_minutes in
      is_possible court start end_of (compute_possible_lesson_slots input) ≡ (
        is_court_free court start input.duration_minutes input.court_slots_by_court
        && (is_held start end_of input.teacher_windows
            && all_free start end_of input.student_windows_by_student input.student_ids))
unfolding compute_possible_lesson_slots
compute_possible_lesson_slots_lem input court start h n =
    let common =
      common_windows input.student_windows_by_student input.teacher_windows input.student_ids in
    let end_of = start + input.duration_minutes in
    let free = is_court_free court start input.duration_minutes input.court_slots_by_court in
    let shared : is_held start end_of common ≡ _ =
      held-common_windows start end_of input.student_windows_by_student input.teacher_windows
        input.student_ids (omega arith) in
    let some_student : (length input.student_ids == 0) ≡ false = ground arith in
    elim (Bool-cases (length common == 0)) [
      | inl none_left ↦
          rw (some_student, none_left)
            (sym (and_false free)
              ∙ ap (λ b. free && b) (sym (held-empty start end_of common none_left) ∙ shared))
      | inr some_left ↦
          rw (some_student, some_left)
            (possible-sort court start end_of
                (add_courts input common [] input.court_slots_by_court)
              ∙ possible-add_courts input common court start [] input.court_slots_by_court
              ∙ ap (λ b. free && b) shared)
    ]
