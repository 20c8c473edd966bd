-- ===== src/LightIntervals/Merged.antt =====
-- The merged intervals light the same instants, without two that touch.
use ardenne_padel_v.Prelude.{
  ltb, leb, Bool-cases, or_swap, All, any_by, ℕ, ◌≤◌, ◌<◌, ◌≡◌, refl, ap, ◌∙◌, inl, inr, Bool, true,
  false, ◌&&◌, ◌||◌, List, [], ◌∷◌, arith,
}
use ardenne_padel_v.LightIntervals.{
  RawInterval, insert_by_start, sort_by_start, merge_from, merge_sorted, merge_intervals,
}

abbrev pub within : ℕ → RawInterval → Bool
within t i = leb i.start_ms t && ltb t i.end_ms

-- The lights are on at an instant.
abbrev pub is_lit : ℕ → List RawInterval → Bool
is_lit t intervals = any_by (within t) intervals

-- The starts do not decrease.
abbrev IsSorted : List RawInterval → Type 0
IsSorted [] = Unit
IsSorted (x ∷ xs) = All (λ y. x.start_ms ≤ y.start_ms) xs × IsSorted xs

abbrev Precedes : RawInterval → List RawInterval → Type 0
Precedes x [] = Unit
Precedes x (y ∷ _) = x.end_ms < y.start_ms

-- Between an interval and the next one it is dark.
abbrev pub IsSeparated : List RawInterval → Type 0
IsSeparated [] = Unit
IsSeparated (x ∷ xs) = Precedes x xs × IsSeparated xs

lit-insert :
    (t : ℕ) (x : RawInterval) (xs : List RawInterval)
    → is_lit t (insert_by_start x xs) ≡ is_lit t (x ∷ xs)
unfolding insert_by_start
lit-insert t x [] = refl
lit-insert t x (y ∷ ys) = elim (Bool-cases (leb x.start_ms y.start_ms)) [
  | inl e ↦ rw e refl
  | inr e ↦ rw (e, lit-insert t x ys) (or_swap (within t y) (within t x) (is_lit t ys))
]

lit-sort : (t : ℕ) (xs : List RawInterval) → is_lit t (sort_by_start xs) ≡ is_lit t xs
unfolding sort_by_start
lit-sort t [] = refl
lit-sort t (x ∷ xs) = lit-insert t x (sort_by_start xs) ∙ ap (λ b. within t x || b) (lit-sort t xs)

All-insert :
    (n : ℕ) (x : RawInterval) (xs : List RawInterval)
    → n ≤ x.start_ms
    → All (λ y. n ≤ y.start_ms) xs
    → All (λ y. n ≤ y.start_ms) (insert_by_start x xs)
unfolding insert_by_start
All-insert n x [] h a = (h, tt)
All-insert n x (y ∷ ys) h a = elim (Bool-cases (leb x.start_ms y.start_ms)) [
  | inl e ↦ rw e (h, a)
  | inr e ↦ rw e (a.0, All-insert n x ys h a.1)
]

All-le_trans :
    (m n : ℕ) (xs : List RawInterval)
    → m ≤ n
    → All (λ y. n ≤ y.start_ms) xs
    → All (λ y. m ≤ y.start_ms) xs
All-le_trans m n [] h a = tt
All-le_trans m n (x ∷ xs) h a = (let p = a.0 in omega arith, All-le_trans m n xs h a.1)

insert-IsSorted :
    (x : RawInterval) (xs : List RawInterval) → IsSorted xs → IsSorted (insert_by_start x xs)
unfolding insert_by_start
insert-IsSorted x [] s = (tt, tt)
insert-IsSorted x (y ∷ ys) s = elim (Bool-cases (leb x.start_ms y.start_ms)) [
  | inl e ↦
      let le : x.start_ms ≤ y.start_ms = ground arith in
      rw e ((le, All-le_trans x.start_ms y.start_ms ys le s.0), s)
  | inr e ↦ rw e (All-insert y.start_ms x ys (ground arith) s.0, insert-IsSorted x ys s.1)
]

sort-IsSorted : (xs : List RawInterval) → IsSorted (sort_by_start xs)
unfolding sort_by_start
sort-IsSorted [] = tt
sort-IsSorted (x ∷ xs) = insert-IsSorted x (sort_by_start xs) (sort-IsSorted xs)

-- Two intervals that meet are one, and one that is swallowed changes nothing.
meet_lit :
    (t a b c d : ℕ) (rest : Bool)
    → a ≤ c
    → c ≤ b
    → b < d
    → ((leb a t && ltb t d) || rest) ≡ ((leb a t && ltb t b) || ((leb c t && ltb t d) || rest))
meet_lit t a b c d true h k l = ground arith
meet_lit t a b c d false h k l = ground arith

swallow_lit :
    (t a b c d : ℕ) (rest : Bool)
    → a ≤ c
    → c ≤ b
    → d ≤ b
    → ((leb a t && ltb t b) || rest) ≡ ((leb a t && ltb t b) || ((leb c t && ltb t d) || rest))
swallow_lit t a b c d true h k l = ground arith
swallow_lit t a b c d false h k l = ground arith

lit-merge_from :
    (t : ℕ) (last : RawInterval) (xs : List RawInterval)
    → All (λ y. last.start_ms ≤ y.start_ms) xs
    → IsSorted xs
    → is_lit t (merge_from last xs) ≡ is_lit t (last ∷ xs)
unfolding merge_from
lit-merge_from t last [] h s = refl
lit-merge_from t last (x ∷ xs) h s = elim (Bool-cases (leb x.start_ms last.end_ms)) [
  | inl meet ↦ elim (Bool-cases (ltb last.end_ms x.end_ms)) [
    | inl longer ↦
        rw (meet, longer, lit-merge_from t (record last { end_ms = x.end_ms }) xs h.1 s.1)
          (meet_lit t last.start_ms last.end_ms x.start_ms x.end_ms (is_lit t xs) h.0 (ground arith)
            (ground arith))
    | inr same ↦
        rw (meet, same, lit-merge_from t last xs h.1 s.1)
          (swallow_lit t last.start_ms last.end_ms x.start_ms x.end_ms (is_lit t xs) h.0
            (ground arith) (ground arith))
  ]
  | inr apart ↦ rw (apart, lit-merge_from t x xs s.0 s.1) refl
]

merge_from-Precedes :
    (before last : RawInterval) (xs : List RawInterval)
    → before.end_ms < last.start_ms
    → Precedes before (merge_from last xs)
unfolding merge_from
merge_from-Precedes before last [] h = h
merge_from-Precedes before last (x ∷ xs) h = elim (Bool-cases (leb x.start_ms last.end_ms)) [
  | inl meet ↦ elim (Bool-cases (ltb last.end_ms x.end_ms)) [
    | inl longer ↦
        rw (meet, longer) (merge_from-Precedes before (record last { end_ms = x.end_ms }) xs h)
    | inr same ↦ rw (meet, same) (merge_from-Precedes before last xs h)
  ]
  | inr apart ↦ rw apart h
]

merge_from-IsSeparated :
    (last : RawInterval) (xs : List RawInterval) → IsSeparated (merge_from last xs)
unfolding merge_from
merge_from-IsSeparated last [] = (tt, tt)
merge_from-IsSeparated last (x ∷ xs) = elim (Bool-cases (leb x.start_ms last.end_ms)) [
  | inl meet ↦ elim (Bool-cases (ltb last.end_ms x.end_ms)) [
    | inl longer ↦ rw (meet, longer) (merge_from-IsSeparated (record last { end_ms = x.end_ms }) xs)
    | inr same ↦ rw (meet, same) (merge_from-IsSeparated last xs)
  ]
  | inr apart ↦ rw apart (merge_from-Precedes last x xs (ground arith), merge_from-IsSeparated x xs)
]

lit-merge_sorted :
    (t : ℕ) (xs : List RawInterval) → IsSorted xs → is_lit t (merge_sorted xs) ≡ is_lit t xs
unfolding merge_sorted
lit-merge_sorted t [] s = refl
lit-merge_sorted t (x ∷ xs) s = lit-merge_from t x xs s.0 s.1

merge_sorted-IsSeparated : (xs : List RawInterval) → IsSeparated (merge_sorted xs)
unfolding merge_sorted
merge_sorted-IsSeparated [] = tt
merge_sorted-IsSeparated (x ∷ xs) = merge_from-IsSeparated x xs

-- The merged intervals light exactly the instants that the given ones light, in any order of the
-- given ones, and between each of them and the next one there is a dark gap.
pub merge_intervals_lem :
    (raw : List RawInterval)
    → ((t : ℕ) → is_lit t (merge_intervals raw) ≡ is_lit t raw) × IsSeparated (merge_intervals raw)
unfolding merge_intervals
merge_intervals_lem raw = (
  λ t. lit-merge_sorted t (sort_by_start raw) (sort-IsSorted raw) ∙ lit-sort t raw,
  merge_sorted-IsSeparated (sort_by_start raw),
)
