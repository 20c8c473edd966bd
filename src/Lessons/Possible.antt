-- ===== src/Lessons/Possible.antt =====
-- Which lessons `computePossibleLessonSlots` offers.
use ardenne_padel_v.Prelude.{
  ltb, leb, ◌==◌, true≢false, Bool-cases, or_assoc, and_false, and_assoc, length, any_by, includes,
  ℕ, ◌<◌, ◌≡◌, refl, sym, ap, ◌∙◌, inl, inr, Bool, true, false, ◌&&◌, ◌||◌, none, some, List, [],
  ◌∷◌, ◌++◌, arith,
}
use ardenne_padel_v.Slots.{MinuteRange}
use ardenne_padel_v.Lessons.{
  PossibleLessonSlot, max_ℕ, min_ℕ, intersect_range, intersect_with, intersect_range_lists,
  windows_of, common_windows, same_times, holds_lesson,
}

-- A lesson on a court is among the slots.
abbrev pub is_possible : ℕ → ℕ → ℕ → List PossibleLessonSlot → Bool
is_possible court start end_of slots =
    any_by (λ s. same_times start end_of s && includes s.court_ids court) slots

-- Some window holds the lesson.
abbrev pub is_held : ℕ → ℕ → List MinuteRange → Bool
is_held start end_of windows = any_by (holds_lesson start end_of) windows

pub and_or : (a b c : Bool) → ((a && b) || (a && c)) ≡ (a && (b || c))
and_or true b c = refl
and_or false b c = refl

both_hold :
    (s e a b c d : ℕ)
    → (leb (max_ℕ a c) s && leb e (min_ℕ b d)) ≡ ((leb a s && leb e b) && (leb c s && leb e d))
both_hold s e a b c d = ground arith

none_holds :
    (s e a b c d : ℕ)
    → ltb (max_ℕ a c) (min_ℕ b d) ≡ false
    → s < e
    → ((leb a s && leb e b) && (leb c s && leb e d)) ≡ false
none_holds s e a b c d h lt = ground arith

held-intersect_range :
    (s e : ℕ) (a b : MinuteRange) (rest : List MinuteRange)
    → s < e
    → is_held s e (elim (intersect_range a b) [ some overlap ↦ overlap ∷ rest | none ↦ rest ])
      ≡ ((holds_lesson s e a && holds_lesson s e b) || is_held s e rest)
unfolding intersect_range
held-intersect_range s e a b rest h =
    elim (Bool-cases
      (ltb (max_ℕ a.start_minute b.start_minute) (min_ℕ a.end_minute b.end_minute))) [
        | inl some_left ↦ rw some_left (
            ap (λ x. x || is_held s e rest)
              (both_hold s e a.start_minute a.end_minute b.start_minute b.end_minute))
        | inr none_left ↦
            rw
              (
                none_left,
                none_holds s e a.start_minute a.end_minute b.start_minute b.end_minute none_left h,
              )
              refl
      ]

held-append :
    (s e : ℕ) (xs ys : List MinuteRange)
    → is_held s e (xs ++ ys) ≡ (is_held s e xs || is_held s e ys)
held-append s e [] ys = refl
held-append s e (x ∷ xs) ys =
    ap (λ b. holds_lesson s e x || b) (held-append s e xs ys)
    ∙ sym (or_assoc (holds_lesson s e x) (is_held s e xs) (is_held s e ys))

held-intersect_with :
    (s e : ℕ) (a : MinuteRange) (bs : List MinuteRange)
    → s < e
    → is_held s e (intersect_with a bs) ≡ (holds_lesson s e a && is_held s e bs)
unfolding intersect_with
held-intersect_with s e a [] h = sym (and_false (holds_lesson s e a))
held-intersect_with s e a (b ∷ bs) h =
    held-intersect_range s e a b (intersect_with a bs) h
    ∙ ap (λ x. (holds_lesson s e a && holds_lesson s e b) || x) (held-intersect_with s e a bs h)
    ∙ and_or (holds_lesson s e a) (holds_lesson s e b) (is_held s e bs)

or_and : (a b c : Bool) → ((a && c) || (b && c)) ≡ ((a || b) && c)
or_and true true true = refl
or_and true true false = refl
or_and true false true = refl
or_and true false false = refl
or_and false b c = refl

-- A lesson fits an intersection exactly if it fits both lists.
held-intersect_range_lists :
    (s e : ℕ) (xs ys : List MinuteRange)
    → s < e
    → is_held s e (intersect_range_lists xs ys) ≡ (is_held s e xs && is_held s e ys)
unfolding intersect_range_lists
held-intersect_range_lists s e [] ys h = refl
held-intersect_range_lists s e (x ∷ xs) ys h =
    held-append s e (intersect_with x ys) (intersect_range_lists xs ys)
    ∙ rw (held-intersect_with s e x ys h, held-intersect_range_lists s e xs ys h)
        (or_and (holds_lesson s e x) (is_held s e xs) (is_held s e ys))

-- Everyone is free for the lesson.
abbrev pub all_free : ℕ → ℕ → List (ℕ × List MinuteRange) → List ℕ → Bool
all_free s e by_student [] = true
all_free s e by_student (student ∷ students) =
    is_held s e (windows_of student by_student) && all_free s e by_student students

pub held-empty :
    (s e : ℕ) (ws : List MinuteRange) → (length ws == 0) ≡ true → is_held s e ws ≡ false
held-empty s e [] h = refl
held-empty s e (w ∷ ws) h = absurd (true≢false (sym h ∙ ground arith))

and_true_right : (a : Bool) → a ≡ (a && true)
and_true_right true = refl
and_true_right false = refl

pub held-common_windows :
    (s e : ℕ) (by_student : List (ℕ × List MinuteRange)) (windows : List MinuteRange)
    (students : List ℕ)
    → s < e
    → is_held s e (common_windows by_student windows students)
      ≡ (is_held s e windows && all_free s e by_student students)
unfolding common_windows
held-common_windows s e by_student windows [] h = and_true_right (is_held s e windows)
held-common_windows s e by_student windows (student ∷ students) h =
    let left = intersect_range_lists windows (windows_of student by_student) in
    let both = held-intersect_range_lists s e windows (windows_of student by_student) h in
    let free = all_free s e by_student students in
    let regroup =
      and_assoc (is_held s e windows) (is_held s e (windows_of student by_student)) free in
    elim (Bool-cases (length left == 0)) [
      | inl stop ↦
          let dark = held-empty s e left stop in
          rw stop (dark ∙ ap (λ b. b && free) (sym dark ∙ both) ∙ regroup)
      | inr going ↦
          rw going (
            held-common_windows s e by_student left students h ∙ ap (λ b. b && free) both ∙ regroup)
    ]
