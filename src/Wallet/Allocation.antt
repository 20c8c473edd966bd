-- ===== src/Wallet/Allocation.antt =====
-- How an amount is shared between the origins of a wallet's credits: `allocateAcrossOrigins` and
-- `allocateProportionally` of apps/api/src/modules/wallet/wallet.service.ts.
pub mod Across
use ardenne_padel_v.Prelude.{
  if◌then◌else◌, ℤ, pos, leb_ℤ, ◌==ℤ◌, min_ℤ, is_positive, sum_ℤ, ◌+ℤ◌, ◌-ℤ◌, ◌*ℤ◌, plain_error,
  Result, ok, err, List, [], ◌∷◌, map,
}
use ardenne_padel_v.Money.{floor_quot}
use ardenne_padel_v.Wallet.Store.{WalletCreditOrigin, paid, bonus, admin_comp, Breakdown, amount_of}

pub record Allocation : Type 0 where
  pub origin : WalletCreditOrigin
  pub amount_cents : ℤ

-- `DEBIT_ORIGIN_ORDER`: the bonus is spent first.
abbrev pub debit_origin_order : List WalletCreditOrigin
debit_origin_order = bonus ∷ paid ∷ admin_comp ∷ []

-- The loop of `allocateAcrossOrigins`: what it pushes, and what remains.
unfoldable pub allocate_from : List WalletCreditOrigin → ℤ → Breakdown → List Allocation × ℤ
allocate_from [] remaining available = ([], remaining)
allocate_from (o ∷ os) remaining available =
    let take = min_ℤ (amount_of available o) remaining in
    let taken = allocate_from os (remaining -ℤ take) available in
    let skipped = allocate_from os remaining available in
    if leb_ℤ remaining (pos 0)
    then ([], remaining)
    else if is_positive take
    then (record { origin = o; amount_cents = take } ∷ taken.0, taken.1)
    else skipped

abbrev all_allocated : List Allocation × ℤ → Result (List Allocation)
all_allocated (rows, remaining) = if is_positive remaining then err plain_error else ok rows

-- `allocateAcrossOrigins`
unfoldable pub allocate_across_origins : ℤ → Breakdown → Result (List Allocation)
allocate_across_origins amount available =
    all_allocated (allocate_from debit_origin_order amount available)

unfoldable pub breakdown_total : Breakdown → ℤ
breakdown_total b = b.paid_cents +ℤ b.bonus_cents +ℤ b.admin_comp_cents

-- `raw`, the rounded-down shares
abbrev raw_share : ℤ → Breakdown → WalletCreditOrigin → Allocation
raw_share amount refundable o = record {
  origin = o;
  amount_cents = floor_quot (amount_of refundable o *ℤ amount) (breakdown_total refundable);
}

unfoldable pub raw_shares : ℤ → Breakdown → List Allocation
raw_shares amount refundable = map (raw_share amount refundable) debit_origin_order

-- The loop that hands out the residual cents.
unfoldable pub spread_residual : List Allocation → ℤ → Breakdown → List Allocation
spread_residual [] residual refundable = []
spread_residual (r ∷ rs) residual refundable =
    let add = min_ℤ (amount_of refundable r.origin -ℤ r.amount_cents) residual in
    let rest = spread_residual rs (residual -ℤ add) refundable in
    if leb_ℤ residual (pos 0)
    then r ∷ rs
    else record r { amount_cents = r.amount_cents +ℤ add } ∷ rest

abbrev pub allocated_sum : List Allocation → ℤ
allocated_sum rows = sum_ℤ (map (λ r. r.amount_cents) rows)

-- `allocateProportionally`
unfoldable pub allocate_proportionally : ℤ → Breakdown → List Allocation
allocate_proportionally amount refundable =
    let raw = raw_shares amount refundable in
    if breakdown_total refundable ==ℤ pos 0
    then []
    else if amount ==ℤ breakdown_total refundable
    then map (λ o. record { origin = o; amount_cents = amount_of refundable o }) debit_origin_order
    else spread_residual raw (amount -ℤ allocated_sum raw) refundable
