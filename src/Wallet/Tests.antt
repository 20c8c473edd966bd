-- ===== src/Wallet/Tests.antt =====
-- Concrete wallets.
use ardenne_padel_v.Wallet.Refunds.Left.{a_booking, a_bar_account, left_for}
use ardenne_padel_v.Prelude.{
  All, ℤ, pos, ◌≤ℤ◌, ◌<ℤ◌, min_ℤ, ◌+ℤ◌, ◌-ℤ◌, negate, abs_ℤ, validation_failed, app_error, Result,
  ok, err, integer, ℕ, ◌≡◌, refl, sym, subst, ◌⊎◌, inl, inr, some, List, [], ◌∷◌, arith,
}
use ardenne_padel_v.Wallet.Store.{
  paid, bonus, WalletDb, Breakdown, sum_where, sum_by_origin, get_balance_total_cents,
  get_balance_by_origin, sum_active, get_reserved_cents, create_hold_row, find_hold,
  find_hold_by_id, reduce_hold_amount,
}
use ardenne_padel_v.Wallet.Allocation.{
  Allocation, allocate_from, allocate_across_origins, breakdown_total, allocated_sum,
  allocate_proportionally,
}
use ardenne_padel_v.Wallet.Allocation.Across.{
  IsNonneg, SpendsExactly, allocate_across_origins_exact,
}
use ardenne_padel_v.Wallet.Service
use ardenne_padel_v.Wallet.Service.{
  get_balance, credit_from_pack_purchase, insufficient, debit, debit_admin, debit_for_booking,
  debit_for_nextore_account, refund_for_nextore_account, refund_for_booking, create_hold,
  release_hold, release_part, release_hold_partially, capture_hold,
}
use ardenne_padel_v.Wallet.Solvency.{IsValid}
use ardenne_padel_v.Wallet.HoldChange.{Falls}
use ardenne_padel_v.Wallet.Debits.{
  available, SpendsOrRefuses, direct_debits_exact, debit_admin_exact,
}
use ardenne_padel_v.Wallet.Holds.{HoldOutcome, release_hold_outcome, capture_hold_outcome}
use ardenne_padel_v.Wallet.PartialRelease.{create_hold_exact, release_hold_partially_outcome}
use ardenne_padel_v.Wallet.Credits.{credit_from_pack_purchase_exact, credit_admin_exact}
use ardenne_padel_v.Wallet.Refunds.{IsWithin, allocate_proportionally_exact}
use ardenne_padel_v.Wallet.Refunds.Booked.{RefundsOrRefuses, refunds_exact}

abbrev empty_db : WalletDb
empty_db = record { accounts = []; transactions = []; holds = []; next_id = 1 }

empty_db-IsValid : IsValid empty_db
unfolding get_balance_total_cents get_balance_by_origin get_reserved_cents sum_where sum_active
    breakdown_total ◌+ℤ◌
empty_db-IsValid = record {
  solvent = λ a. record {
    origins = record {
      paid_nonneg = omega arith;
      bonus_nonneg = omega arith;
      admin_comp_nonneg = omega arith;
    };
    summed = refl;
    covered = omega arith;
  };
  holds_fresh = tt;
  holds_distinct = tt;
  holds_nonneg = tt;
}

-- A wallet with 20.00 paid and 5.00 of bonus.
abbrev stocked : WalletDb
stocked = (credit_from_pack_purchase 1 7 (integer (pos 2000)) (integer (pos 500)) empty_db).1

credit_from_pack_purchase_exact_example :
    let (r, db') =
      credit_from_pack_purchase 1 7 (integer (pos 2000)) (integer (pos 500)) empty_db in
    (r ≡ ok tt) × Falls 1 (negate (pos 2000) +ℤ negate (pos 500)) (pos 0) empty_db db'
credit_from_pack_purchase_exact_example =
    credit_from_pack_purchase_exact 1 7 (pos 2000) (pos 500) empty_db empty_db-IsValid (omega arith)
      (omega arith)

stocked-IsValid : IsValid stocked
stocked-IsValid =
    (credit_from_pack_purchase_exact 1 7 (pos 2000) (pos 500) empty_db empty_db-IsValid
      (omega arith) (omega arith)).1.valid

-- 15.00 of it are held for a booking.
abbrev held : WalletDb
held = (create_hold 1 9 (integer (pos 1500)) stocked).1

held-IsValid : IsValid held
held-IsValid = elim (create_hold_exact 1 9 (pos 1500) stocked stocked-IsValid (omega arith)) [
  | inl (_, _, _, f) ↦ f.valid
  | inr (_, _, same) ↦ subst IsValid (sym same) stocked-IsValid
]

create_hold_exact_example :
    let (r, db') = create_hold 1 9 (integer (pos 1500)) stocked in
    ((pos 1500 ≤ℤ available 1 stocked)
      × (r ≡ ok (create_hold_row 1 9 (pos 1500) stocked).0)
      × (find_hold_by_id stocked.next_id db' ≡ some (create_hold_row 1 9 (pos 1500) stocked).0)
      × Falls 1 (pos 0) (negate (pos 1500)) stocked db')
    ⊎ ((available 1 stocked <ℤ pos 1500) × (r ≡ err insufficient) × (db' ≡ stocked))
create_hold_exact_example = create_hold_exact 1 9 (pos 1500) stocked stocked-IsValid (omega arith)

release_hold_partially_outcome_example :
    HoldOutcome
      (λ h. (pos 0, min_ℤ h.amount_cents (pos 400)))
      (find_hold_by_id 1 held)
      held
      (release_hold_partially 3 1 (integer (pos 400)) held)
release_hold_partially_outcome_example =
    release_hold_partially_outcome 3 1 (pos 400) held held-IsValid (omega arith)

-- A second call with the same amount succeeds, and releases it again.
released_twice :
    let (_, once) = release_hold_partially 3 1 (integer (pos 400)) held in
    let (r, twice) = release_hold_partially 3 1 (integer (pos 400)) once in
    (r ≡ ok tt) × (get_reserved_cents 1 once ≡ pos 1100) × (get_reserved_cents 1 twice ≡ pos 700)
unfolding release_hold_partially release_part find_hold create_hold get_balance ◌-ℤ◌
    get_balance_total_cents sum_where credit_from_pack_purchase ◌+ℤ◌ get_reserved_cents sum_active
    reduce_hold_amount
released_twice = (refl, refl, refl)

release_hold_outcome_example :
    HoldOutcome (λ h. (pos 0, h.amount_cents)) (find_hold_by_id 1 held) held (release_hold 3 1 held)
release_hold_outcome_example = release_hold_outcome 3 1 held held-IsValid

capture_hold_outcome_example :
    HoldOutcome
      (λ h. (h.amount_cents, h.amount_cents))
      (find_hold_by_id 1 held)
      held
      (capture_hold 3 1 held)
capture_hold_outcome_example = capture_hold_outcome 3 1 held held-IsValid

direct_debits_exact_example :
    SpendsOrRefuses 1 (pos 700) held (debit_for_booking 1 9 (integer (pos 700)) held)
    × SpendsOrRefuses 1 (pos 700) held (debit_for_nextore_account 1 9 (integer (pos 700)) held)
direct_debits_exact_example = direct_debits_exact 1 9 (pos 700) held held-IsValid (omega arith)

debit_admin_exact_example :
    let (r, db') = debit_admin 1 (integer (pos 700)) 5 "error" held in
    ((pos 700 ≤ℤ pos 0) × (r ≡ err (app_error validation_failed 422)) × (db' ≡ held))
    ⊎ ((pos 0 <ℤ pos 700) × SpendsOrRefuses 1 (pos 700) held (r, db'))
debit_admin_exact_example = debit_admin_exact 1 5 "error" (pos 700) held held-IsValid

credit_admin_exact_example :
    let (r, db') =
      ardenne_padel_v.Wallet.Service.credit_admin 1 (integer (pos 300)) 5 "gift" held in
    ((pos 300 ≤ℤ pos 0) × (r ≡ err (app_error validation_failed 422)) × (db' ≡ held))
    ⊎ ((pos 0 <ℤ pos 300) × (r ≡ ok tt) × Falls 1 (negate (pos 300)) (pos 0) held db')
credit_admin_exact_example = credit_admin_exact 1 (pos 300) 5 "gift" held held-IsValid

abbrev sample_breakdown : Breakdown
sample_breakdown = record { paid_cents = pos 2000; bonus_cents = pos 500; admin_comp_cents = pos 0 }

sample_breakdown-IsNonneg : IsNonneg sample_breakdown
sample_breakdown-IsNonneg = record {
  paid_nonneg = omega arith;
  bonus_nonneg = omega arith;
  admin_comp_nonneg = omega arith;
}

allocate_proportionally_exact_example :
    (allocated_sum (allocate_proportionally (pos 999) sample_breakdown) ≡ pos 999)
    × All (IsWithin sample_breakdown) (allocate_proportionally (pos 999) sample_breakdown)
unfolding breakdown_total ◌+ℤ◌
allocate_proportionally_exact_example =
    allocate_proportionally_exact (pos 999) sample_breakdown sample_breakdown-IsNonneg (omega arith)
      (omega arith)

-- The first 7.00 of it are spent on a booking, the bonus first.
spent_on_booking :
    allocate_across_origins (pos 700) sample_breakdown
    ≡ ok (
        record { origin = bonus; amount_cents = pos 500 }
        ∷ record { origin = paid; amount_cents = pos 200 }
        ∷ [])
unfolding allocate_across_origins allocate_from ◌-ℤ◌
spent_on_booking = refl

allocate_across_origins_exact_example :
    (rows : List Allocation) × (allocate_across_origins (pos 700) sample_breakdown ≡ ok rows)
    × SpendsExactly (pos 700) sample_breakdown rows
unfolding breakdown_total ◌+ℤ◌
allocate_across_origins_exact_example =
    allocate_across_origins_exact (pos 700) sample_breakdown sample_breakdown-IsNonneg (omega arith)
      (omega arith)

-- 7.00 spent on booking 9.
abbrev debited : WalletDb
debited = (debit_for_booking 1 9 (integer (pos 700)) stocked).1

SpendsOrRefuses-IsValid :
    (account : ℕ) (amount : ℤ) (db : WalletDb) (out : Result (Unit {0}) × WalletDb)
    → IsValid db
    → SpendsOrRefuses account amount db out
    → IsValid out.1
SpendsOrRefuses-IsValid account amount db out v (inl (_, _, s)) = s.valid
SpendsOrRefuses-IsValid account amount db out v (inr (_, _, same)) = subst IsValid (sym same) v

debited-IsValid : IsValid debited
debited-IsValid =
    SpendsOrRefuses-IsValid 1 (pos 700) stocked (debit_for_booking 1 9 (integer (pos 700)) stocked)
      stocked-IsValid (direct_debits_exact 1 9 (pos 700) stocked stocked-IsValid (omega arith)).0

booked_refundable : IsNonneg (left_for (a_booking 9) debited)
unfolding debit_for_booking debit get_balance get_balance_total_cents get_balance_by_origin
    get_reserved_cents sum_where sum_by_origin sum_active credit_from_pack_purchase
    allocate_across_origins allocate_from ◌+ℤ◌ ◌-ℤ◌ abs_ℤ negate
booked_refundable = record {
  paid_nonneg = omega arith;
  bonus_nonneg = omega arith;
  admin_comp_nonneg = omega arith;
}

bar_refundable : IsNonneg (left_for (a_bar_account 9) debited)
unfolding debit_for_booking debit get_balance get_balance_total_cents get_balance_by_origin
    get_reserved_cents sum_where sum_by_origin sum_active credit_from_pack_purchase
    allocate_across_origins allocate_from ◌+ℤ◌ ◌-ℤ◌ abs_ℤ negate
bar_refundable = record {
  paid_nonneg = omega arith;
  bonus_nonneg = omega arith;
  admin_comp_nonneg = omega arith;
}

refunds_exact_example :
    RefundsOrRefuses 1
      (pos 300)
      (a_booking 9)
      debited
      (refund_for_booking 1 9 (integer (pos 300)) debited)
    × RefundsOrRefuses 1
        (pos 300)
        (a_bar_account 9)
        debited
        (refund_for_nextore_account 1 9 (integer (pos 300)) debited)
refunds_exact_example =
    refunds_exact 1 9 (pos 300) debited debited-IsValid (omega arith) booked_refundable
      bar_refundable
