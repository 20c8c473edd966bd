-- ===== src/Wallet/Allocation/Across.antt =====
-- `allocateAcrossOrigins` takes exactly the amount, the bonus first, and from no origin more than it
-- holds.
use ardenne_padel_v.Prelude.{
  if◌then◌else◌, Bool-cases, All, ℤ, pos, negsuc, ◌≤ℤ◌, ◌<ℤ◌, leb_ℤ, min_ℤ, is_positive, int_laws,
  ltb_ℤ→lt, ge→ltb_ℤ, -ℤ_zero, zero_+ℤ, ◌+ℤ◌, ◌-ℤ◌, ok, ◌≡◌, refl, sym, ◌∙◌, ◌⊎◌, inl, inr, Bool,
  true, false, some, List, [], ◌∷◌, arith,
}
use ardenne_padel_v.Wallet.Store.{
  WalletCreditOrigin, paid, bonus, admin_comp, Breakdown, amount_of, has_origin,
}
use ardenne_padel_v.Wallet.Allocation.{
  Allocation, debit_origin_order, allocate_from, allocate_across_origins, breakdown_total,
  allocated_sum,
}

-- The cents that a list of allocations takes from an origin.
abbrev pub allocated_to : WalletCreditOrigin → List Allocation → ℤ
allocated_to o [] = pos 0
allocated_to o (r ∷ rs) =
    (if has_origin o (some r.origin) then r.amount_cents else pos 0) +ℤ allocated_to o rs

-- What one round takes, in terms of what the origin has and what remains.
pub round_take : ℤ → ℤ → ℤ
round_take available remaining =
    if leb_ℤ remaining (pos 0)
    then pos 0
    else if is_positive (min_ℤ available remaining)
    then min_ℤ available remaining
    else pos 0

round_take_bounds :
    (available remaining : ℤ)
    → pos 0 ≤ℤ available
    → pos 0 ≤ℤ remaining
    → (pos 0 ≤ℤ round_take available remaining)
      × (round_take available remaining ≤ℤ available)
      × (round_take available remaining ≤ℤ remaining)
      × ((available ≤ℤ round_take available remaining)
          ⊎ (remaining ≤ℤ round_take available remaining))
unfolding round_take
round_take_bounds (negsuc a) remaining h k = absurd (omega arith)
round_take_bounds (pos a) (negsuc b) h k = absurd (omega arith)
round_take_bounds (pos a) (pos b) h k = ground arith

-- After a `break` nothing is taken.
allocate_from-break :
    (os : List WalletCreditOrigin) (remaining : ℤ) (available : Breakdown)
    → leb_ℤ remaining (pos 0) ≡ true
    → allocate_from os remaining available ≡ ([], remaining)
unfolding allocate_from
allocate_from-break [] remaining available h = refl
allocate_from-break (o ∷ os) remaining available h = rw h refl

nothing_added : (b : Bool) (x : ℤ) → x ≡ (if b then pos 0 else pos 0) +ℤ x
nothing_added true x = sym (zero_+ℤ x)
nothing_added false x = sym (zero_+ℤ x)

-- One round of the loop.
allocate_from-step :
    (o : WalletCreditOrigin) (os : List WalletCreditOrigin) (remaining : ℤ) (available : Breakdown)
    → let t = round_take (amount_of available o) remaining in
      let (rows, left) = allocate_from os (remaining -ℤ t) available in
      ((a : WalletCreditOrigin)
        → allocated_to a (allocate_from (o ∷ os) remaining available).0
          ≡ (if has_origin a (some o) then t else pos 0) +ℤ allocated_to a rows)
      × ((allocate_from (o ∷ os) remaining available).1 ≡ left)
unfolding allocate_from round_take
allocate_from-step o os remaining available = elim (Bool-cases (leb_ℤ remaining (pos 0))) [
  | inl stop ↦ rw stop (
    rw (-ℤ_zero remaining, allocate_from-break os remaining available stop)
        (λ a. nothing_added (has_origin a (some o)) (pos 0)),
    rw (-ℤ_zero remaining, allocate_from-break os remaining available stop) refl,
  )
  | inr going ↦ elim (Bool-cases (is_positive (min_ℤ (amount_of available o) remaining))) [
    | inl some_left ↦ rw (going, some_left) (λ a. refl, refl)
    | inr none_left ↦
        rw (going, none_left, -ℤ_zero remaining)
          (
            λ a.
                nothing_added (has_origin a (some o))
                  (allocated_to a (allocate_from os remaining available).0),
            refl,
          )
  ]
]

-- What a split takes of each origin.
abbrev pub bonus_take : ℤ → Breakdown → ℤ
bonus_take amount b = round_take b.bonus_cents amount

abbrev pub paid_take : ℤ → Breakdown → ℤ
paid_take amount b = round_take b.paid_cents (amount -ℤ bonus_take amount b)

abbrev pub admin_comp_take : ℤ → Breakdown → ℤ
admin_comp_take amount b =
    round_take b.admin_comp_cents (amount -ℤ bonus_take amount b -ℤ paid_take amount b)

pub record IsNonneg (b : Breakdown) : Type 0 where
  pub paid_nonneg : pos 0 ≤ℤ b.paid_cents
  pub bonus_nonneg : pos 0 ≤ℤ b.bonus_cents
  pub admin_comp_nonneg : pos 0 ≤ℤ b.admin_comp_cents

allocate_from-takes :
    (amount : ℤ) (b : Breakdown)
    → let (rows, left) = allocate_from debit_origin_order amount b in
      (allocated_to bonus rows ≡ bonus_take amount b)
      × (allocated_to paid rows ≡ paid_take amount b)
      × (allocated_to admin_comp rows ≡ admin_comp_take amount b)
      × (left ≡ amount -ℤ bonus_take amount b -ℤ paid_take amount b -ℤ admin_comp_take amount b)
allocate_from-takes amount b =
    let r₁ : ℤ = amount -ℤ bonus_take amount b in
    let r₂ : ℤ = r₁ -ℤ paid_take amount b in
    let (s₁, l₁) = allocate_from-step bonus (paid ∷ admin_comp ∷ []) amount b in
    let (s₂, l₂) = allocate_from-step paid (admin_comp ∷ []) r₁ b in
    let (s₃, l₃) = allocate_from-step admin_comp [] r₂ b in
    (
      s₁ bonus ∙ rw (s₂ bonus, s₃ bonus) (unfold allocate_from in omega int_laws),
      s₁ paid ∙ rw (s₂ paid, s₃ paid) (unfold allocate_from in omega int_laws),
      s₁ admin_comp ∙ rw (s₂ admin_comp, s₃ admin_comp) (unfold allocate_from in omega int_laws),
      l₁ ∙ l₂ ∙ l₃ ∙ unfold allocate_from in refl,
    )

-- The takes are exact: they leave nothing, unless the origins together hold less.
takes_bounds :
    (amount : ℤ) (b : Breakdown)
    → IsNonneg b
    → pos 0 ≤ℤ amount
    → let left = amount -ℤ bonus_take amount b -ℤ paid_take amount b -ℤ admin_comp_take amount b in
      (pos 0 ≤ℤ bonus_take amount b)
      × (bonus_take amount b ≤ℤ b.bonus_cents)
      × (pos 0 ≤ℤ paid_take amount b)
      × (paid_take amount b ≤ℤ b.paid_cents)
      × (pos 0 ≤ℤ admin_comp_take amount b)
      × (admin_comp_take amount b ≤ℤ b.admin_comp_cents)
      × (pos 0 ≤ℤ left)
      × (amount ≤ℤ breakdown_total b → left ≤ℤ pos 0)
unfolding breakdown_total
takes_bounds amount b v h =
    let r₁ : ℤ = amount -ℤ bonus_take amount b in
    let r₂ : ℤ = r₁ -ℤ paid_take amount b in
    let (a₁, b₁, c₁, d₁) = round_take_bounds b.bonus_cents amount v.bonus_nonneg h in
    let (a₂, b₂, c₂, d₂) = round_take_bounds b.paid_cents r₁ v.paid_nonneg (omega int_laws) in
    let (a₃, b₃, c₃, d₃) =
      round_take_bounds b.admin_comp_cents r₂ v.admin_comp_nonneg (omega int_laws) in
    (a₁, b₁, a₂, b₂, a₃, b₃, omega int_laws, λ enough. omega int_laws)

-- The paid credits are spent only when the bonus is gone, the offered ones only when both are.
takes_in_order :
    (amount : ℤ) (b : Breakdown)
    → IsNonneg b
    → pos 0 ≤ℤ amount
    → (pos 0 <ℤ paid_take amount b → b.bonus_cents ≤ℤ bonus_take amount b)
      × (pos 0 <ℤ admin_comp_take amount b
          → (b.bonus_cents ≤ℤ bonus_take amount b) × (b.paid_cents ≤ℤ paid_take amount b))
takes_in_order amount b v h =
    let r₁ : ℤ = amount -ℤ bonus_take amount b in
    let r₂ : ℤ = r₁ -ℤ paid_take amount b in
    let (a₁, b₁, c₁, d₁) = round_take_bounds b.bonus_cents amount v.bonus_nonneg h in
    let (a₂, b₂, c₂, d₂) = round_take_bounds b.paid_cents r₁ v.paid_nonneg (omega int_laws) in
    let (a₃, b₃, c₃, d₃) =
      round_take_bounds b.admin_comp_cents r₂ v.admin_comp_nonneg (omega int_laws) in
    (λ some_paid. omega int_laws, λ some_offered. (omega int_laws, omega int_laws))

allocate_from-positive :
    (os : List WalletCreditOrigin) (remaining : ℤ) (b : Breakdown)
    → All (λ r. pos 0 <ℤ r.amount_cents) (allocate_from os remaining b).0
unfolding allocate_from
allocate_from-positive [] remaining b = tt
allocate_from-positive (o ∷ os) remaining b = elim (Bool-cases (leb_ℤ remaining (pos 0))) [
  | inl stop ↦ rw stop tt
  | inr going ↦ elim (Bool-cases (is_positive (min_ℤ (amount_of b o) remaining))) [
    | inl some_left ↦
        rw (going, some_left)
          (
            ltb_ℤ→lt (pos 0) (min_ℤ (amount_of b o) remaining) some_left,
            allocate_from-positive os (remaining -ℤ min_ℤ (amount_of b o) remaining) b,
          )
    | inr none_left ↦ rw (going, none_left) (allocate_from-positive os remaining b)
  ]
]

pub allocated_sum-by_origin :
    (rows : List Allocation)
    → allocated_sum rows
      ≡ allocated_to bonus rows +ℤ allocated_to paid rows +ℤ allocated_to admin_comp rows
allocated_sum-by_origin [] = omega int_laws
allocated_sum-by_origin (r ∷ rows) =
    rw (allocated_sum-by_origin rows) (by_origin r.origin r.amount_cents)
  where
    by_origin :
        (o : WalletCreditOrigin) (x : ℤ)
        → x +ℤ (allocated_to bonus rows +ℤ allocated_to paid rows +ℤ allocated_to admin_comp rows)
          ≡ ((if has_origin bonus (some o) then x else pos 0) +ℤ allocated_to bonus rows)
            +ℤ ((if has_origin paid (some o) then x else pos 0) +ℤ allocated_to paid rows)
            +ℤ ((if has_origin admin_comp (some o) then x else pos 0)
                +ℤ allocated_to admin_comp rows)
    by_origin paid x = omega int_laws
    by_origin bonus x = omega int_laws
    by_origin admin_comp x = omega int_laws

-- An allocation that spends exactly `amount` from what the origins hold, the bonus first.
pub record SpendsExactly (amount : ℤ) (b : Breakdown) (rows : List Allocation) : Type 0 where
  pub spends : allocated_sum rows ≡ amount
  pub rows_positive : All (λ r. pos 0 <ℤ r.amount_cents) rows
  pub bonus_within : allocated_to bonus rows ≤ℤ b.bonus_cents
  pub paid_within : allocated_to paid rows ≤ℤ b.paid_cents
  pub admin_comp_within : allocated_to admin_comp rows ≤ℤ b.admin_comp_cents
  pub bonus_first : pos 0 <ℤ allocated_to paid rows → b.bonus_cents ≤ℤ allocated_to bonus rows
  pub paid_next :
      pos 0 <ℤ allocated_to admin_comp rows
      → (b.bonus_cents ≤ℤ allocated_to bonus rows) × (b.paid_cents ≤ℤ allocated_to paid rows)

-- If no origin is negative and together they cover the amount, `allocateAcrossOrigins` does not
-- throw: it returns positive allocations that add up to the amount, none above what its origin
-- holds, with the paid credits touched only once the bonus is spent and the offered ones last.
pub allocate_across_origins_exact :
    (amount : ℤ) (b : Breakdown)
    → IsNonneg b
    → pos 0 ≤ℤ amount
    → amount ≤ℤ breakdown_total b
    → (rows : List Allocation) × (allocate_across_origins amount b ≡ ok rows)
      × SpendsExactly amount b rows
unfolding allocate_across_origins
allocate_across_origins_exact amount b v h enough =
    let rows : List Allocation = (allocate_from debit_origin_order amount b).0 in
    let (eb, ep, ea, el) = allocate_from-takes amount b in
    let (a₁, b₁, a₂, b₂, a₃, b₃, low, high) = takes_bounds amount b v h in
    let (first, next) = takes_in_order amount b v h in
    (
      rows,
      rw (el, ge→ltb_ℤ (pos 0) _ (high enough)) refl,
      record {
        spends = rw (allocated_sum-by_origin rows, eb, ep, ea) (omega (int_laws, high enough));
        rows_positive = allocate_from-positive debit_origin_order amount b;
        bonus_within = rw eb b₁;
        paid_within = rw ep b₂;
        admin_comp_within = rw ea b₃;
        bonus_first = rw (eb, ep) first;
        paid_next = rw (eb, ep, ea) next;
      },
    )
