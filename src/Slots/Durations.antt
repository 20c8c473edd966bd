-- ===== src/Slots/Durations.antt =====
-- The durations that can be booked at a time.
use ardenne_padel_v.Prelude.{
  leb, ◌==◌, ==_iff, Bool-cases, or_assoc, or_false, or_swap, and_false, filter_by, any_by,
  includes, includes-append, ℕ, ◌≡◌, refl, sym, ap, ◌∙◌, inl, inr, Bool, true, false, ◌&&◌, ◌||◌,
  List, [], ◌∷◌,
}
use ardenne_padel_v.Slots.{
  DurationWindow, set_add, add_all, starts_in, durations_from, insert_number, sort_numbers,
  allowed_durations_at,
}

known :
    (set : List ℕ) (d n : ℕ)
    → includes set d ≡ true
    → includes set n ≡ (includes set n || (d == n || false))
known set d n h = elim (Bool-cases (d == n)) [
  | inl e ↦ let same = (==_iff d n).0 e in rw (e, ← same, h) refl
  | inr e ↦ rw e (sym (or_false (includes set n)))
]

includes-set_add :
    (set : List ℕ) (d n : ℕ) → includes (set_add set d) n ≡ (includes set n || (d == n || false))
unfolding set_add
includes-set_add set d n = elim (Bool-cases (includes set d)) [
  | inl e ↦ rw e (known set d n e)
  | inr e ↦ rw e (includes-append set (d ∷ []) n)
]

includes-add_all :
    (set ds : List ℕ) (n : ℕ) → includes (add_all set ds) n ≡ (includes set n || includes ds n)
unfolding add_all
includes-add_all set [] n = sym (or_false (includes set n))
includes-add_all set (d ∷ ds) n =
    includes-add_all (set_add set d) ds n
    ∙ rw (includes-set_add set d n, or_false (d == n))
        (or_assoc (includes set n) (d == n) (includes ds n))

-- A window lets a duration begin at a time.
abbrev pub allows : ℕ → ℕ → DurationWindow → Bool
allows start n w = starts_in start w && includes w.allowed_durations_minutes n

includes-durations_from :
    (set : List ℕ) (start n : ℕ) (ws : List DurationWindow)
    → includes (durations_from set start ws) n ≡ (includes set n || any_by (allows start n) ws)
unfolding durations_from
includes-durations_from set start n [] = sym (or_false (includes set n))
includes-durations_from set start n (w ∷ ws) = elim (Bool-cases (starts_in start w)) [
  | inl e ↦ rw e (
      includes-durations_from (add_all set w.allowed_durations_minutes) start n ws
      ∙ rw (includes-add_all set w.allowed_durations_minutes n) (
          or_assoc (includes set n) (includes w.allowed_durations_minutes n)
            (any_by (allows start n) ws)))
  | inr e ↦ rw e (includes-durations_from set start n ws)
]

includes-insert : (x n : ℕ) (xs : List ℕ) → includes (insert_number x xs) n ≡ includes (x ∷ xs) n
unfolding insert_number
includes-insert x n [] = refl
includes-insert x n (y ∷ ys) = elim (Bool-cases (leb x y)) [
  | inl e ↦ rw e refl
  | inr e ↦ rw (e, includes-insert x n ys) (or_swap (y == n) (x == n) (includes ys n))
]

includes-sort : (xs : List ℕ) (n : ℕ) → includes (sort_numbers xs) n ≡ includes xs n
unfolding sort_numbers
includes-sort [] n = refl
includes-sort (x ∷ xs) n =
    includes-insert x n (sort_numbers xs) ∙ ap (λ b. x == n || b) (includes-sort xs n)

-- The durations offered at a time are those of the windows that the time lies in.
pub includes-allowed_durations_at :
    (start n : ℕ) (ws : List DurationWindow)
    → includes (allowed_durations_at start ws) n ≡ any_by (allows start n) ws
unfolding allowed_durations_at
includes-allowed_durations_at start n ws =
    includes-sort (durations_from [] start ws) n ∙ includes-durations_from [] start n ws

pub includes-filter :
    (p : ℕ → Bool) (xs : List ℕ) (n : ℕ) → includes (filter_by p xs) n ≡ (includes xs n && p n)
includes-filter p [] n = refl
includes-filter p (x ∷ xs) n = elim (Bool-cases (x == n)) [
  | inl e ↦
      let same = (==_iff x n).0 e in
      elim (Bool-cases (p x)) [
        | inl kept ↦ rw (kept, e) (sym (ap p (sym same) ∙ kept))
        | inr dropped ↦
            rw (dropped, e, includes-filter p xs n, ← same, dropped) (and_false (includes xs x))
      ]
  | inr e ↦ elim (Bool-cases (p x)) [
    | inl kept ↦ rw (kept, e) (includes-filter p xs n)
    | inr dropped ↦ rw (dropped, e) (includes-filter p xs n)
  ]
]
