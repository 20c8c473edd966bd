-- ===== src/Wallet/Refunds.antt =====
-- The refunds to a wallet: `allocateProportionally`, `refundForBooking` and
-- `refundForNextoreAccount`.
pub mod Left
pub mod Booked
use native.Mathlib.Nat.{
  le_of_mul-le-mul_right, le_trans, div-mul-le_self, mul-le-mul_left, add-mul, mul_comm,
}
use ardenne_padel_v.Money.{floor_div, floor_quot}
use ardenne_padel_v.Prelude.{
  ◌==◌, ==_iff, Bool-cases, All, ℤ, pos, negsuc, ◌≤ℤ◌, leb_ℤ, int_laws, leb_ℤ→le, leb_ℤ→gt, ◌+ℤ◌,
  ◌-ℤ◌, ◌*ℤ◌, ℕ, ◌+◌, ◌*◌, ◌/◌, ◌≤◌, ◌<◌, ◌≡◌, refl, ap, ◌∙◌, inl, inr, List, [], ◌∷◌, map, arith,
}
use ardenne_padel_v.Wallet.Store.{paid, bonus, admin_comp, Breakdown, amount_of}
use ardenne_padel_v.Wallet.Allocation.{
  Allocation, breakdown_total, raw_shares, spread_residual, allocated_sum, allocate_proportionally,
}
use ardenne_padel_v.Wallet.Allocation.Across.{IsNonneg}

-- The residual is handed out in full when the amounts leave room for it, and each row grows within
-- its own room.
abbrev room : List Allocation → Breakdown → ℤ
room [] refundable = pos 0
room (r ∷ rs) refundable = amount_of refundable r.origin -ℤ r.amount_cents +ℤ room rs refundable

-- A row is within what can be refunded to its origin.
abbrev pub IsWithin : Breakdown → Allocation → Type 0
IsWithin refundable r =
    (pos 0 ≤ℤ r.amount_cents) × (r.amount_cents ≤ℤ amount_of refundable r.origin)

room_nonneg :
    (rs : List Allocation) (refundable : Breakdown)
    → All (IsWithin refundable) rs
    → pos 0 ≤ℤ room rs refundable
room_nonneg [] refundable h = omega arith
room_nonneg (r ∷ rs) refundable h =
    let ih = room_nonneg rs refundable h.1 in let (a, b) = h.0 in omega int_laws

spread_residual_lem :
    (rs : List Allocation) (residual : ℤ) (refundable : Breakdown)
    → All (IsWithin refundable) rs
    → pos 0 ≤ℤ residual
    → residual ≤ℤ room rs refundable
    → let out = spread_residual rs residual refundable in
      (allocated_sum out ≡ allocated_sum rs +ℤ residual)
      × All (IsWithin refundable) out
      × (map (λ r. r.origin) out ≡ map (λ r. r.origin) rs)
unfolding spread_residual
spread_residual_lem [] residual refundable h p q = (omega int_laws, tt, refl)
spread_residual_lem (r ∷ rs) residual refundable h p q =
    elim (Bool-cases (leb_ℤ residual (pos 0))) [
      | inl stop ↦ let low = leb_ℤ→le residual (pos 0) stop in rw stop (omega int_laws, h, refl)
      | inr more ↦
          let (a, b) = h.0 in
          let gap = amount_of refundable r.origin -ℤ r.amount_cents in
          elim (Bool-cases (leb_ℤ gap residual)) [
            | inl small ↦
                let le = leb_ℤ→le gap residual small in
                let (s, w, o) =
                  spread_residual_lem rs (residual -ℤ gap) refundable h.1 (omega int_laws)
                    (omega int_laws) in
                rw (more, small, s, o) (omega int_laws, ((omega int_laws, omega int_laws), w), refl)
            | inr large ↦
                let gt = leb_ℤ→gt gap residual large in
                let n = room_nonneg rs refundable h.1 in
                let (s, w, o) =
                  spread_residual_lem rs (residual -ℤ residual) refundable h.1 (omega int_laws)
                    (omega int_laws) in
                rw (more, large, s, o) (omega int_laws, ((omega int_laws, omega int_laws), w), refl)
          ]
    ]

-- A rounded-down share, on natural numbers.
share_within : (x a t : ℕ) → 0 < t → a ≤ t → x * a / t ≤ x
share_within x a t h k =
    le_of_mul-le-mul_right (le_trans (div-mul-le_self (x * a) t) (mul-le-mul_left x k)) h

shares_fit : (x y z a t : ℕ) → 0 < t → x + y + z ≡ t → x * a / t + y * a / t + z * a / t ≤ a
shares_fit x y z a t h e =
    let dx = div-mul-le_self (x * a) t in
    let dy = div-mul-le_self (y * a) t in
    let dz = div-mul-le_self (z * a) t in
    le_of_mul-le-mul_right {k = t}
      (omega (
        arith,
        dx,
        dy,
        dz,
        add-mul (x * a / t + y * a / t) (z * a / t) t,
        add-mul (x * a / t) (y * a / t) t,
        add-mul (x + y) z a,
        add-mul x y a,
        mul_comm a t,
        ap (λ n. n * a) e,
      ))
      h

pos-mul : (x a : ℕ) → pos x *ℤ pos a ≡ pos (x * a)
unfolding ◌*ℤ◌
pos-mul x a = grind arith

raw_eq : (x a t : ℕ) → floor_quot (pos x *ℤ pos a) (pos t) ≡ pos (x * a / t)
unfolding floor_quot floor_div
raw_eq x a t = rw (pos-mul x a) refl

abbrev of_parts : ℕ → ℕ → ℕ → Breakdown
of_parts p b c = record { paid_cents = pos p; bonus_cents = pos b; admin_comp_cents = pos c }

total_of_parts : (p b c : ℕ) → breakdown_total (of_parts p b c) ≡ pos (p + b + c)
unfolding breakdown_total ◌+ℤ◌
total_of_parts p b c = ground arith

abbrev parts_share : ℕ → ℕ → ℕ → ℕ → ℕ → ℤ
parts_share p b c a x = pos (x * a / (p + b + c))

raw_of_parts :
    (p b c a : ℕ)
    → raw_shares (pos a) (of_parts p b c)
      ≡ record { origin = bonus; amount_cents = parts_share p b c a b }
        ∷ record { origin = paid; amount_cents = parts_share p b c a p }
        ∷ record { origin = admin_comp; amount_cents = parts_share p b c a c }
        ∷ []
unfolding raw_shares
raw_of_parts p b c a =
    rw
      (total_of_parts p b c, raw_eq b a (p + b + c), raw_eq p a (p + b + c), raw_eq c a (p + b + c))
      refl

own_IsWithin : (x : ℕ) → (pos 0 ≤ℤ pos x) × (pos x ≤ℤ pos x)
own_IsWithin x = (omega arith, omega arith)

proportional_parts :
    (p b c a : ℕ)
    → a ≤ p + b + c
    → (allocated_sum (allocate_proportionally (pos a) (of_parts p b c)) ≡ pos a)
      × All (IsWithin (of_parts p b c)) (allocate_proportionally (pos a) (of_parts p b c))
unfolding allocate_proportionally
proportional_parts p b c a h =
    let e = total_of_parts p b c in
    elim (Bool-cases (p + b + c + 0 == 0 + 0)) [
      | inl none_left ↦ rw (e, none_left) (ground arith, tt)
      | inr some_left ↦ elim (Bool-cases (a + 0 == p + b + c + 0)) [
        | inl all ↦
            rw (e, some_left, all)
              (
                omega (int_laws, (==_iff (a + 0) (p + b + c + 0)).0 all),
                (own_IsWithin b, (own_IsWithin p, (own_IsWithin c, tt))),
              )
        | inr part ↦
            let fit = shares_fit b p c a (p + b + c) (ground arith) (omega arith) in
            let wb = share_within b a (p + b + c) (ground arith) h in
            let wp = share_within p a (p + b + c) (ground arith) h in
            let wc = share_within c a (p + b + c) (ground arith) h in
            let raw : List Allocation =
              record { origin = bonus; amount_cents = parts_share p b c a b }
              ∷ record { origin = paid; amount_cents = parts_share p b c a p }
              ∷ record { origin = admin_comp; amount_cents = parts_share p b c a c }
              ∷ [] in
            let (s, w, _) =
              spread_residual_lem raw (pos a -ℤ allocated_sum raw) (of_parts p b c)
                (
                  (omega arith, omega arith),
                  ((omega arith, omega arith), ((omega arith, omega arith), tt)),
                )
                (omega int_laws) (omega int_laws) in
            rw (e, some_left, part, raw_of_parts p b c a) (s ∙ omega int_laws, w)
      ]
    ]

-- A refund of an amount between zero and what can be refunded is shared out to the cent, and no
-- origin gets more than what can be refunded to it.
pub allocate_proportionally_exact :
    (amount : ℤ) (refundable : Breakdown)
    → IsNonneg refundable
    → pos 0 ≤ℤ amount
    → amount ≤ℤ breakdown_total refundable
    → (allocated_sum (allocate_proportionally amount refundable) ≡ amount)
      × All (IsWithin refundable) (allocate_proportionally amount refundable)
unfolding breakdown_total
allocate_proportionally_exact amount refundable n p h =
    of_signs amount refundable.paid_cents refundable.bonus_cents refundable.admin_comp_cents
      n.paid_nonneg n.bonus_nonneg n.admin_comp_nonneg p h
  where
    of_signs :
        (a p b c : ℤ)
        → pos 0 ≤ℤ p
        → pos 0 ≤ℤ b
        → pos 0 ≤ℤ c
        → pos 0 ≤ℤ a
        → a ≤ℤ p +ℤ b +ℤ c
        → let r : Breakdown = record { paid_cents = p; bonus_cents = b; admin_comp_cents = c } in
          (allocated_sum (allocate_proportionally a r) ≡ a)
          × All (IsWithin r) (allocate_proportionally a r)
    of_signs (pos a) (pos p) (pos b) (pos c) hp hb hc ha h =
        proportional_parts p b c a (omega int_laws)
    of_signs (negsuc a) p b c hp hb hc ha h = absurd (omega arith)
    of_signs (pos a) (negsuc p) b c hp hb hc ha h = absurd (omega arith)
    of_signs (pos a) (pos p) (negsuc b) c hp hb hc ha h = absurd (omega arith)
    of_signs (pos a) (pos p) (pos b) (negsuc c) hp hb hc ha h = absurd (omega arith)
