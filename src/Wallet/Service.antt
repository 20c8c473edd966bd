-- ===== src/Wallet/Service.antt =====
-- `WalletService` (apps/api/src/modules/wallet/wallet.service.ts), method by method. The time of a
-- call (`new Date()`) is its argument `now`; log lines are left out.
use Prim.Native.String.{String}
use ardenne_padel_v.Prelude.{
  if◌then◌else◌, filter_by, ℤ, pos, leb_ℤ, ltb_ℤ, is_positive, ◌-ℤ◌, negate, validation_failed,
  not_found, insufficient_wallet_balance, Error, app_error, Number, ℕ, none, some, List, map,
}
use ardenne_padel_v.Prelude.Action.{
  Action, pure, gets, or_raise, from_result, from_update, ◌>>=◌, ◌>>◌, modify, raise_if, if_then,
  checked_cents,
}
use ardenne_padel_v.Wallet.Store.{
  WalletCreditOrigin, paid, bonus, admin_comp, WalletTransactionType, credit_pack_purchase,
  credit_pack_bonus, debit_booking, refund_booking, hold_created, hold_released, hold_captured,
  adjustment, debit_nextore_account, refund_nextore_account, WalletTransaction, released, captured,
  WalletHold, WalletAccount, WalletDb, Breakdown, is_active, get_balance_total_cents,
  get_balance_by_origin, get_reserved_cents, get_debit_breakdown_for_booking,
  get_refunded_breakdown_for_booking, get_debit_breakdown_for_nextore_account,
  get_refunded_breakdown_for_nextore_account, create_transaction, create_transactions,
  create_hold_row, find_hold_by_id, transition_hold, reduce_hold_amount, ensure_account_row,
}
use ardenne_padel_v.Wallet.Allocation.{
  Allocation, allocate_across_origins, breakdown_total, allocate_proportionally,
}

pub record WalletBalance : Type 0 where
  pub total_cents : ℤ
  pub reserved_cents : ℤ
  pub available_cents : ℤ
  pub by_origin : Breakdown

-- `getBalance`
unfoldable pub get_balance : ℕ → WalletDb → WalletBalance
get_balance account db = record {
  total_cents = get_balance_total_cents account db;
  reserved_cents = get_reserved_cents account db;
  available_cents = get_balance_total_cents account db -ℤ get_reserved_cents account db;
  by_origin = get_balance_by_origin account db;
}

unfoldable pub ensure_account : ℕ → Action WalletDb WalletAccount
unfolding ensure_account_row
ensure_account user = from_update (ensure_account_row user)

-- A ledger row with no reference to anything.
abbrev pub bare_row : ℕ → WalletTransactionType → ℤ → WalletTransaction
bare_row account type amount = record {
  wallet_account_id = account;
  type = type;
  amount_cents = amount;
  credit_origin = none;
  booking_id = none;
  credit_pack_purchase_id = none;
  wallet_hold_id = none;
  nextore_account_id = none;
  reference = none;
  created_by = none;
}

abbrev pub pack_row : ℕ → WalletTransactionType → ℤ → WalletCreditOrigin → ℕ → WalletTransaction
pack_row account type amount o purchase = record (bare_row account type amount) {
  credit_origin = some o;
  credit_pack_purchase_id = some purchase;
}

-- `creditFromPackPurchase`
unfoldable pub credit_from_pack_purchase : ℕ → ℕ → Number → Number → Action WalletDb (Unit {0})
credit_from_pack_purchase account purchase paid_credits bonus_credits = do
  paid_cents ← checked_cents paid_credits
  bonus_cents ← checked_cents bonus_credits
  if_then (is_positive paid_cents)
      (modify (create_transaction (pack_row account credit_pack_purchase paid_cents paid purchase)))
  if_then (is_positive bonus_cents)
      (modify (create_transaction (pack_row account credit_pack_bonus bonus_cents bonus purchase)))

-- `creditAdmin`
unfoldable pub credit_admin : ℕ → Number → ℕ → String → Action WalletDb (Unit {0})
credit_admin account number created_by reason = do
  amount ← checked_cents number
  raise_if (leb_ℤ amount (pos 0)) (app_error validation_failed 422)
  modify (
      create_transaction (record (bare_row account WalletTransactionType.credit_admin amount) {
        credit_origin = some admin_comp;
        created_by = some created_by;
        reference = some reason;
      }))

-- The rows of `breakdown.filter((b) => b.amountCents > 0).map(…)`
abbrev pub rows_of : (Allocation → WalletTransaction) → List Allocation → List WalletTransaction
rows_of row breakdown = map row (filter_by (λ b. is_positive b.amount_cents) breakdown)

abbrev pub insufficient : Error
insufficient = app_error insufficient_wallet_balance 409

-- The body that the three direct debits share: the check of the balance, the split between the
-- origins, and one row for each.
unfoldable pub debit : ℕ → ℤ → (Allocation → WalletTransaction) → Action WalletDb (Unit {0})
debit account amount row = do
  balance ← gets (get_balance account)
  raise_if (ltb_ℤ balance.available_cents amount) insufficient
  breakdown ← from_result (allocate_across_origins amount balance.by_origin)
  modify (create_transactions (rows_of row breakdown))

abbrev pub adjustment_row : ℕ → ℕ → String → Allocation → WalletTransaction
adjustment_row account created_by reason b =
    record (bare_row account adjustment (negate b.amount_cents)) {
      credit_origin = some b.origin;
      created_by = some created_by;
      reference = some reason;
    }

-- `debitAdmin`
unfoldable pub debit_admin : ℕ → Number → ℕ → String → Action WalletDb (Unit {0})
unfolding debit
debit_admin account number created_by reason = do
  amount ← checked_cents number
  raise_if (leb_ℤ amount (pos 0)) (app_error validation_failed 422)
  debit account amount (adjustment_row account created_by reason)

abbrev pub booking_debit_row : ℕ → ℕ → Allocation → WalletTransaction
booking_debit_row account booking b =
    record (bare_row account debit_booking (negate b.amount_cents)) {
      credit_origin = some b.origin;
      booking_id = some booking;
    }

-- `debitForBooking`
unfoldable pub debit_for_booking : ℕ → ℕ → Number → Action WalletDb (Unit {0})
unfolding debit
debit_for_booking account booking number = do
  amount ← checked_cents number
  debit account amount (booking_debit_row account booking)

abbrev pub nextore_debit_row : ℕ → ℕ → Allocation → WalletTransaction
nextore_debit_row account bar b =
    record (bare_row account debit_nextore_account (negate b.amount_cents)) {
      credit_origin = some b.origin;
      nextore_account_id = some bar;
    }

-- `debitForNextoreAccount`
unfoldable pub debit_for_nextore_account : ℕ → ℕ → Number → Action WalletDb (Unit {0})
unfolding debit
debit_for_nextore_account account bar number = do
  amount ← checked_cents number
  debit account amount (nextore_debit_row account bar)

abbrev pub minus : Breakdown → Breakdown → Breakdown
minus a b = record {
  paid_cents = a.paid_cents -ℤ b.paid_cents;
  bonus_cents = a.bonus_cents -ℤ b.bonus_cents;
  admin_comp_cents = a.admin_comp_cents -ℤ b.admin_comp_cents;
}

-- The body that the two refunds share.
unfoldable pub refund :
    ℤ → Breakdown → (Allocation → WalletTransaction) → Action WalletDb (Unit {0})
refund amount refundable row = do
  raise_if (ltb_ℤ (breakdown_total refundable) amount) (app_error validation_failed 422)
  modify (create_transactions (rows_of row (allocate_proportionally amount refundable)))

abbrev pub nextore_refund_row : ℕ → ℕ → Allocation → WalletTransaction
nextore_refund_row account bar b = record (bare_row account refund_nextore_account b.amount_cents) {
  credit_origin = some b.origin;
  nextore_account_id = some bar;
}

-- `refundForNextoreAccount`
unfoldable pub refund_for_nextore_account : ℕ → ℕ → Number → Action WalletDb (Unit {0})
unfolding refund
refund_for_nextore_account account bar number = do
  amount ← checked_cents number
  debited ← gets (get_debit_breakdown_for_nextore_account bar)
  already_refunded ← gets (get_refunded_breakdown_for_nextore_account bar)
  refund amount (minus debited already_refunded) (nextore_refund_row account bar)

abbrev pub booking_refund_row : ℕ → ℕ → Allocation → WalletTransaction
booking_refund_row account booking b = record (bare_row account refund_booking b.amount_cents) {
  credit_origin = some b.origin;
  booking_id = some booking;
}

-- `refundForBooking`
unfoldable pub refund_for_booking : ℕ → ℕ → Number → Action WalletDb (Unit {0})
unfolding refund
refund_for_booking account booking number = do
  amount ← checked_cents number
  debited ← gets (get_debit_breakdown_for_booking booking)
  already_refunded ← gets (get_refunded_breakdown_for_booking booking)
  refund amount (minus debited already_refunded) (booking_refund_row account booking)

-- An audit row about a hold, which never counts in the balance.
abbrev pub hold_row : WalletTransactionType → ℤ → WalletHold → WalletTransaction
hold_row type amount hold = record (bare_row hold.wallet_account_id type amount) {
  booking_id = hold.booking_id;
  wallet_hold_id = some hold.id;
}

-- `createHold`
unfoldable pub create_hold : ℕ → ℕ → Number → Action WalletDb WalletHold
create_hold account booking number = do
  amount ← checked_cents number
  balance ← gets (get_balance account)
  raise_if (ltb_ℤ balance.available_cents amount) insufficient
  hold ← from_update (create_hold_row account booking amount)
  modify (create_transaction (hold_row hold_created amount hold))
  pure hold

abbrev pub missing_hold : Error
missing_hold = app_error not_found 404

-- `releaseHold`
unfoldable pub release_hold : ℕ → ℕ → Action WalletDb (Unit {0})
release_hold now id = do
  found ← gets (find_hold_by_id id)
  hold ← or_raise missing_hold found
  transitioned ←
      from_update (transition_hold id (λ h. record h { status = released; released_at = some now }))
  if_then transitioned (modify (create_transaction (hold_row hold_released hold.amount_cents hold)))

-- The part of `releaseHoldPartially` behind its test that the hold is active.
unfoldable pub release_part : ℕ → ℕ → ℤ → WalletHold → Action WalletDb (Unit {0})
release_part now id amount hold = if leb_ℤ hold.amount_cents amount then release_hold now id else do
  reduced ← from_update (reduce_hold_amount id amount)
  if_then reduced (modify (create_transaction (hold_row hold_released amount hold)))

-- `releaseHoldPartially`
unfoldable pub release_hold_partially : ℕ → ℕ → Number → Action WalletDb (Unit {0})
release_hold_partially now id number = do
  amount ← checked_cents number
  found ← gets (find_hold_by_id id)
  hold ← or_raise missing_hold found
  if_then (is_active hold.status) (release_part now id amount hold)

abbrev pub captured_row : WalletHold → Allocation → WalletTransaction
captured_row hold b = record (hold_row debit_booking (negate b.amount_cents) hold) {
  credit_origin = some b.origin;
}

-- `captureHold` after the transition has been won
unfoldable pub spend_hold : WalletHold → Action WalletDb (Unit {0})
spend_hold hold = do
  balance ← gets (get_balance hold.wallet_account_id)
  breakdown ← from_result (allocate_across_origins hold.amount_cents balance.by_origin)
  modify (create_transactions (rows_of (captured_row hold) breakdown))
  modify (create_transaction (hold_row hold_captured hold.amount_cents hold))

-- `captureHold`
unfoldable pub capture_hold : ℕ → ℕ → Action WalletDb (Unit {0})
capture_hold now id = do
  found ← gets (find_hold_by_id id)
  hold ← or_raise missing_hold found
  transitioned ←
      from_update (transition_hold id (λ h. record h { status = captured; captured_at = some now }))
  if_then transitioned (spend_hold hold)
