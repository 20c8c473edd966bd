-- ===== src/Shares.antt =====
-- The shares of a shared booking: apps/api/src/modules/bookings/booking-share.service.ts and
-- booking-share.repository.ts, over the wallet, the payment provider and the organiser's guarantee.
-- The hash of a token is a parameter. Notifications and log lines are left out; of a share the
-- columns that these methods read or write are kept.
pub mod Store
pub mod Rows
pub mod Paid
pub mod Refusals
pub mod Once
pub mod FromWallet
mod Tests
use ardenne_padel_v.Guarantees.Store.{GuaranteesDb, on_wallet, on_payments}
use ardenne_padel_v.Shares.Store.{
  share_paid, covered_by_organizer, BookingShareFundingSource, wallet_funds, external_funds,
  BookingShare, SharesDb, on_base, find_share_by_id, find_by_token_hash, is_payable, is_unpaid,
  is_share_paid, claim_for_payment, mark_paid_if_payable, update_share_status,
}
use ardenne_padel_v.Prelude.{
  ltb, ◌==◌, filter_by, validation_failed, not_found, share_already_paid, invitation_expired, Error,
  app_error, integer, ℕ, Bool, true, false, not, ◌&&◌, Option, none, some, List, [], ◌∷◌,
}
use ardenne_padel_v.Prelude.Action.{
  Action, pure, raise, gets, or_raise, from_update, attempt, ◌>>=◌, ◌>>◌, modify, raise_if, if_then,
}
use ardenne_padel_v.Wallet.Store.{WalletAccount}
use ardenne_padel_v.Wallet.Service.{ensure_account, debit_for_booking}
use ardenne_padel_v.Payments.{
  PaymentIntentStatus, requires_capture, succeeded, refused, PaymentRef, for_share, PaymentInput,
  payment_request, capture_request, PaymentProvider, PaymentTransactionStatus,
  transaction_authorized, transaction_succeeded, transaction_failed, booking_share, Payment,
  PaymentsDb, ask, create_payment_row, update_payment_status, ensure_stripe_customer,
}
use ardenne_padel_v.Guarantees.{release_for_paid_share}

abbrev pub has_expired : ℕ → Option ℕ → Bool
has_expired now none = false
has_expired now (some expires) = ltb expires now

-- `getShareByToken`, after the hash of the token
unfoldable pub get_share_by_token : ℕ → ℕ → Action SharesDb BookingShare
get_share_by_token now hash = do
  found ← gets (find_by_token_hash hash)
  share ← or_raise (app_error not_found 404) found
  raise_if (has_expired now share.invitation_expires_at) (app_error invitation_expired 410)
  pure share

-- What a payment leaves on the share: `paymentId` and `walletTransactionId`
pub record Evidence : Type 0 where
  pub payment_id : Option ℕ
  pub wallet_ref : Option ℕ

abbrev pub wallet_evidence : WalletAccount → Evidence
wallet_evidence wallet = record { payment_id = none; wallet_ref = some wallet.id }

abbrev pub debit_share : BookingShare → WalletAccount → Action GuaranteesDb Evidence
debit_share share wallet = do
  on_wallet (debit_for_booking wallet.id share.booking_id (integer share.total_amount_cents))
  pure (wallet_evidence wallet)

-- The branch of a payment from the payer's wallet
unfoldable pub take_from_wallet : ℕ → BookingShare → Action GuaranteesDb Evidence
take_from_wallet payer share = do
  wallet ← on_wallet (ensure_account payer)
  debit_share share wallet

abbrev pub share_charge : ℕ → ℕ → BookingShare → PaymentInput
share_charge customer method share = record {
  customer_id = customer;
  payment_method_id = method;
  amount_cents = share.total_amount_cents;
  idempotency_key = for_share share.id;
}

abbrev pub share_payment_status : PaymentIntentStatus → PaymentTransactionStatus
share_payment_status requires_capture = transaction_authorized
share_payment_status _ = transaction_succeeded

abbrev pub share_payment : ℕ → BookingShare → PaymentRef → ℕ → Payment
share_payment payer share ref id = record {
  id = id;
  user_id = payer;
  booking_id = some share.booking_id;
  provider_payment_id = ref.provider_payment_id;
  amount_cents = share.total_amount_cents;
  status = share_payment_status ref.status;
  purpose = booking_share;
}

abbrev pub is_status_succeeded : PaymentIntentStatus → Bool
is_status_succeeded succeeded = true
is_status_succeeded _ = false

-- The capture of an authorized payment
unfoldable pub capture_share :
    PaymentProvider → Payment → PaymentIntentStatus → Action PaymentsDb (Unit {0})
capture_share provider payment requires_capture = do
  answer ←
      ask (capture_request payment.provider_payment_id)
        (provider.confirm_or_capture payment.provider_payment_id)
  if_then (not (is_status_succeeded answer.status)) (do
    update_payment_status payment.id transaction_failed
    raise (app_error validation_failed 402))
  update_payment_status payment.id transaction_succeeded
capture_share provider payment _ = pure tt

abbrev pub is_refused : PaymentIntentStatus → Bool
is_refused refused = true
is_refused _ = false

-- The branch of a payment by card
unfoldable pub take_from_card :
    PaymentProvider → ℕ → Option ℕ → BookingShare → Action PaymentsDb Evidence
unfolding capture_share
take_from_card provider payer none share = raise (app_error validation_failed 422)
take_from_card provider payer (some method) share = do
  customer ← ensure_stripe_customer provider payer
  let input = share_charge customer method share
  ref ← ask (payment_request input) (provider.create_payment input)
  raise_if (is_refused ref.status) (app_error validation_failed 402)
  payment ← create_payment_row (share_payment payer share ref)
  capture_share provider payment ref.status
  pure (record { payment_id = some payment.id; wallet_ref = none })

-- The `try` block
unfoldable pub take_money :
    PaymentProvider
    → ℕ
    → BookingShareFundingSource
    → Option ℕ
    → BookingShare
    → Action GuaranteesDb Evidence
unfolding take_from_wallet take_from_card
take_money provider payer wallet_funds method share = take_from_wallet payer share
take_money provider payer external_funds method share =
    on_payments (take_from_card provider payer method share)

-- A column that an update leaves alone if its value is `undefined`
abbrev pub written : Option ℕ → Option ℕ → Option ℕ
written none old = old
written (some value) old = some value

abbrev pub paid_with : ℕ → ℕ → BookingShareFundingSource → Evidence → BookingShare → BookingShare
paid_with now payer source evidence s = record s {
  status = share_paid;
  funding_source = some source;
  paid_by_user_id = some payer;
  payment_id = written evidence.payment_id s.payment_id;
  wallet_transaction_id = written evidence.wallet_ref s.wallet_transaction_id;
  paid_at = some now;
}

abbrev pub already_paid : Error
already_paid = app_error share_already_paid 409

-- `payShare` after the money was taken
unfoldable pub finish_share :
    ℕ
    → ℕ
    → BookingShareFundingSource
    → BookingShare
    → Evidence
    → Action SharesDb (Option BookingShare)
finish_share now payer source share evidence = do
  marked ← from_update (mark_paid_if_payable share.id (paid_with now payer source evidence))
  raise_if (not marked) already_paid
  on_base (release_for_paid_share now share.booking_id share.total_amount_cents)
  gets (find_share_by_id share.id)

-- The `catch` block
abbrev pub restore_status : BookingShare → Error → Action SharesDb Evidence
restore_status share e = do modify (update_share_status share.id share.status); raise e

-- The `try` block with its `catch`: a share whose payment failed has its former status again.
unfoldable pub take_or_restore :
    PaymentProvider
    → ℕ
    → BookingShareFundingSource
    → Option ℕ
    → BookingShare
    → Action SharesDb Evidence
take_or_restore provider payer source method share =
    attempt (on_base (take_money provider payer source method share)) (restore_status share)

-- `payShare` of a share that can be paid
unfoldable pub pay_found :
    PaymentProvider
    → ℕ
    → ℕ
    → BookingShareFundingSource
    → Option ℕ
    → BookingShare
    → Action SharesDb (Option BookingShare)
pay_found provider now payer source method share = do
  claimed ← from_update (claim_for_payment share.id)
  raise_if (not claimed) already_paid
  evidence ← take_or_restore provider payer source method share
  finish_share now payer source share evidence

-- `payShare`
unfoldable pub pay_share :
    PaymentProvider
    → ℕ
    → ℕ
    → ℕ
    → BookingShareFundingSource
    → Option ℕ
    → Action SharesDb (Option BookingShare)
pay_share provider now hash payer source method = do
  share ← get_share_by_token now hash
  raise_if (is_share_paid share.status) already_paid
  raise_if (not (is_payable share.status)) (app_error validation_failed 409)
  pay_found provider now payer source method share

-- `coverUnpaidSharesWithGuarantee`, the `for` over the shares that `findUnpaidByBookingId` gives
unfoldable pub cover_each : List BookingShare → SharesDb → SharesDb
cover_each [] db = db
cover_each (s ∷ rest) db = cover_each rest (update_share_status s.id covered_by_organizer db)

unfoldable pub cover_unpaid_shares_with_guarantee : ℕ → SharesDb → SharesDb
unfolding cover_each
cover_unpaid_shares_with_guarantee booking db =
    cover_each (filter_by (λ s. s.booking_id == booking && is_unpaid s.status) db.shares) db
