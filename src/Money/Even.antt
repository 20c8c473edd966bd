-- ===== src/Money/Even.antt =====
-- `splitEvenly` shares an amount out to the cent.
use ardenne_padel_v.Prelude.{
  Bool-cases, length, All, ℤ, pos, negsuc, pos_part, neg_part, ◌≤ℤ◌, ◌<ℤ◌, ltb_ℤ, int_laws, sum_ℤ,
  ltb_ℤ→lt, ltb_ℤ→ge, ◌+ℤ◌, ◌-ℤ◌, ok, Number, integer, fraction, ok-injective, ℕ, zero, suc, ◌+◌,
  ◌-◌, ◌≤◌, ◌≡◌, refl, ap, ◌∙◌, ◌↔◌, ◌⊎◌, inl, inr, List, [], ◌∷◌, arith,
}
use ardenne_padel_v.Money.{floor_div, times, split_evenly, split_from}

-- What the division leaves lies between zero and the number of parts.
remainder_lem :
    (total : ℤ) (k : ℕ)
    → (pos 0 ≤ℤ total -ℤ times (floor_div total (suc k)) (suc k))
      × (total -ℤ times (floor_div total (suc k)) (suc k) <ℤ pos (suc k))
unfolding times floor_div ◌-ℤ◌
remainder_lem (pos n) k = grind arith
remainder_lem (negsuc n) k = grind arith

-- A part is the quotient, or a cent more.
abbrev pub IsNear : ℤ → ℤ → Type 0
IsNear base x = (x ≡ base) ⊎ (x ≡ base +ℤ pos 1)

-- No part is smaller than one that follows it.
abbrev pub IsDescending : List ℤ → Type 0
IsDescending [] = Unit
IsDescending (x ∷ xs) = All (λ y. y ≤ℤ x) xs × IsDescending xs

length-split_from :
    (base remainder : ℤ) (left i : ℕ) → length (split_from base remainder left i) ≡ left
unfolding split_from
length-split_from base remainder zero i = refl
length-split_from base remainder (suc left) i =
    omega (arith, length-split_from base remainder left (i + 1))

split_from-IsNear :
    (base remainder : ℤ) (left i : ℕ) → All (IsNear base) (split_from base remainder left i)
unfolding split_from
split_from-IsNear base remainder zero i = tt
split_from-IsNear base remainder (suc left) i =
    ground (arith, split_from-IsNear base remainder left (i + 1))

split_from-low :
    (base remainder : ℤ) (left i : ℕ)
    → remainder ≤ℤ pos i
    → All (λ y. y ≤ℤ base) (split_from base remainder left i)
unfolding split_from
split_from-low base remainder zero i h = tt
split_from-low base remainder (suc left) i h =
    ground (arith, split_from-low base remainder left (i + 1))

split_from-high :
    (base remainder : ℤ) (left i : ℕ)
    → All (λ y. y ≤ℤ base +ℤ pos 1) (split_from base remainder left i)
unfolding split_from
split_from-high base remainder zero i = tt
split_from-high base remainder (suc left) i =
    grind (int_laws, split_from-high base remainder left (i + 1))

split_from-IsDescending :
    (base remainder : ℤ) (left i : ℕ) → IsDescending (split_from base remainder left i)
unfolding split_from
split_from-IsDescending base remainder zero i = tt
split_from-IsDescending base remainder (suc left) i = elim (Bool-cases (ltb_ℤ (pos i) remainder)) [
  | inl more ↦ rw more (
    split_from-high base remainder left (i + 1),
    split_from-IsDescending base remainder left (i + 1),
  )
  | inr none_left ↦ rw none_left (
    split_from-low base remainder left (i + 1) (ground arith),
    split_from-IsDescending base remainder left (i + 1),
  )
]

times-zero : (b : ℤ) → times b zero ≡ pos 0
unfolding times
times-zero (pos n) = ground arith
times-zero (negsuc n) = refl

times-suc : (b : ℤ) (k : ℕ) → times b (suc k) ≡ times b k +ℤ b
unfolding times ◌+ℤ◌
times-suc (pos n) zero = ground arith
times-suc (pos n) (suc k) = ground arith
times-suc (negsuc n) zero = ground arith
times-suc (negsuc n) (suc k) = ground arith

-- The sum of the parts from index `i` on, when the remainder is the number `r`.
sum-split_from :
    (base : ℤ) (r left i : ℕ)
    → r ≤ i + left
    → sum_ℤ (split_from base (pos r) left i) ≡ times base left +ℤ pos (r - i)
unfolding split_from
sum-split_from base r zero i h = rw (times-zero base) (omega int_laws)
sum-split_from base r (suc left) i h = elim (Bool-cases (ltb_ℤ (pos i) (pos r))) [
  | inl more ↦
      rw (more, times-suc base left, sum-split_from base r left (i + 1) (omega arith))
        (omega (int_laws, ltb_ℤ→lt (pos i) (pos r) more))
  | inr none_left ↦
      rw (none_left, times-suc base left, sum-split_from base r left (i + 1) (omega arith))
        (omega (int_laws, ltb_ℤ→ge (pos i) (pos r) none_left))
]

sum_even :
    (base total rest : ℤ) (n : ℕ)
    → pos 0 ≤ℤ rest
    → rest <ℤ pos n
    → rest ≡ total -ℤ times base n
    → sum_ℤ (split_from base rest n 0) ≡ total
sum_even base total (pos r) n low high e =
    sum-split_from base r n 0 (omega arith) ∙ omega (int_laws, ap pos_part e, ap neg_part e)
sum_even base total (negsuc r) n low high e = absurd (omega arith)

-- The parts are as many as asked, add up to the amount to the cent, differ from the rounded-down
-- quotient by at most one cent, and the larger ones come first.
pub split_evenly_lem :
    (total : ℤ) (parts : ℕ) {out : List ℤ}
    → split_evenly (integer total) (integer (pos parts)) ≡ ok out
    → (length out ≡ parts)
      × (sum_ℤ out ≡ total)
      × All (IsNear (floor_div total parts)) out
      × IsDescending out
unfolding split_evenly
split_evenly_lem total zero e = cc
split_evenly_lem total (suc p) {out} e =
    let base : ℤ = floor_div total (suc p) in
    let rest : ℤ = total -ℤ times base (suc p) in
    let same : split_from base rest (suc p) 0 ≡ out = ok-injective e in
    let (low, high) = remainder_lem total p in
    rw (← same) (
      length-split_from base rest (suc p) 0,
      sum_even base total rest (suc p) low high refl,
      split_from-IsNear base rest (suc p) 0,
      split_from-IsDescending base rest (suc p) 0,
    )

-- A split succeeds exactly for an integer amount and a positive integer number of parts; any other
-- call throws.
pub split_evenly_total :
    (total parts : Number)
    → ((out : List ℤ) × (split_evenly total parts ≡ ok out))
      ↔ ((t : ℤ) × (k : ℕ) × (total ≡ integer t) × (parts ≡ integer (pos (suc k))))
unfolding split_evenly
split_evenly_total fraction parts = (λ (out, e). cc, λ (t, k, et, ek). cc)
split_evenly_total (integer t) fraction = (λ (out, e). cc, λ (u, k, et, ek). cc)
split_evenly_total (integer t) (integer (negsuc n)) = (λ (out, e). cc, λ (u, k, et, ek). cc)
split_evenly_total (integer t) (integer (pos zero)) = (λ (out, e). cc, λ (u, k, et, ek). cc)
split_evenly_total (integer t) (integer (pos (suc k))) = (λ _. (t, k, refl, refl), λ _. (_, refl))
