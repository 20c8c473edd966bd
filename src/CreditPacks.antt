-- ===== src/CreditPacks.antt =====
-- Packs of credits: apps/api/src/modules/credit-packs (credit-pack.service.ts and
-- credit-packs.repository.ts), over the wallet and the payment provider. Notifications are left out:
-- their failures are caught, and they change nothing else.
pub mod Store
pub mod Credited
pub mod Once
pub mod Unpaid
mod Tests
use ardenne_padel_v.CreditPacks.Store.{
  CreditPack, purchase_paid, purchase_failed, CreditPackPurchase, PacksDb, on_wallet, on_payments,
  find_pack_by_id, find_purchase_by_id, find_purchase_by_payment_id, create_purchase,
  update_purchase, set_purchase_status, is_pending, mark_credited_if_paid,
}
use ardenne_padel_v.Prelude.{
  if◌then◌else◌, validation_failed, not_found, app_error, plain_error, Result, ok, err, integer, ℕ,
  Bool, true, false, Option, none, some,
}
use ardenne_padel_v.Prelude.Action.{
  Action, pure, raise, gets, or_raise, from_result, from_update, ◌>>=◌, ◌>>◌, if_then,
}
use ardenne_padel_v.Wallet.Store.{credit_pack_purchase, active}
use ardenne_padel_v.Wallet.Service.{ensure_account, credit_from_pack_purchase}
use ardenne_padel_v.Payments.{
  PaymentIntentStatus, requires_capture, succeeded, refused, canceled, PaymentRef, for_creditpack,
  PaymentInput, payment_request, capture_request, PaymentProvider, PaymentTransactionStatus,
  transaction_requires_action, transaction_authorized, transaction_succeeded, transaction_failed,
  transaction_canceled, PaymentPurpose, Payment, ask, find_payment_by_provider_payment_id,
  create_payment_row, update_payment_status, ensure_stripe_customer,
}

-- `toTransactionStatus`
abbrev pub to_transaction_status : PaymentIntentStatus → PaymentTransactionStatus
to_transaction_status PaymentIntentStatus.requires_action = transaction_requires_action
to_transaction_status requires_capture = transaction_authorized
to_transaction_status succeeded = transaction_succeeded
to_transaction_status canceled = transaction_canceled
to_transaction_status refused = transaction_failed

abbrev pub is_succeeded : PaymentIntentStatus → Bool
is_succeeded succeeded = true
is_succeeded _ = false

-- The credit of a purchase that has been marked as credited
unfoldable pub credit_purchase : ℕ → Action PacksDb (Unit {0})
credit_purchase id = do
  found ← gets (find_purchase_by_id id)
  purchase ← or_raise plain_error found
  wallet ← on_wallet (ensure_account purchase.user_id)
  on_wallet (
      credit_from_pack_purchase wallet.id purchase.id (integer purchase.paid_credits_cents)
        (integer purchase.bonus_credits_cents))

-- `captureAndCredit` after a capture that succeeded
unfoldable pub credit_captured : ℕ → ℕ → Action PacksDb (Unit {0})
credit_captured id payment = do
  on_payments (update_payment_status payment transaction_succeeded)
  update_purchase id (set_purchase_status purchase_paid)
  should_credit ← from_update (mark_credited_if_paid id)
  if_then should_credit (credit_purchase id)

-- `captureAndCredit` after a capture that failed
unfoldable pub fail_purchase : ℕ → ℕ → Action PacksDb (Unit {0})
fail_purchase id payment = do
  on_payments (update_payment_status payment transaction_failed)
  update_purchase id (set_purchase_status purchase_failed)
  raise (app_error validation_failed 502)

abbrev pub after_capture : ℕ → ℕ → Bool → Action PacksDb (Unit {0})
after_capture id payment true = credit_captured id payment
after_capture id payment false = fail_purchase id payment

-- `captureAndCredit`
unfoldable pub capture_and_credit : PaymentProvider → ℕ → ℕ → ℕ → Action PacksDb (Unit {0})
capture_and_credit provider id payment provider_id = do
  answer ← on_payments (ask (capture_request provider_id) (provider.confirm_or_capture provider_id))
  after_capture id payment (is_succeeded answer.status)

-- `PurchaseResult`
pub record PurchaseResult : Type 0 where
  pub purchase_id : ℕ
  pub requires_action : Bool
  pub client_secret : Option ℕ

abbrev pub pack_charge : ℕ → CreditPackPurchase → ℕ → CreditPack → PaymentInput
pack_charge customer purchase method pack = record {
  customer_id = customer;
  payment_method_id = method;
  amount_cents = pack.purchase_amount_cents;
  idempotency_key = for_creditpack purchase.id;
}

abbrev pub pack_payment : ℕ → CreditPack → PaymentRef → ℕ → Payment
pack_payment user pack ref id = record {
  id = id;
  user_id = user;
  booking_id = none;
  provider_payment_id = ref.provider_payment_id;
  amount_cents = pack.purchase_amount_cents;
  status = to_transaction_status ref.status;
  purpose = PaymentPurpose.credit_pack_purchase;
}

abbrev pub capture_now : PaymentProvider → ℕ → Payment → Action PacksDb PurchaseResult
capture_now provider id payment = do
  capture_and_credit provider id payment.id payment.provider_payment_id
  pure (record { purchase_id = id; requires_action = false; client_secret = none })

-- The end of `purchase`, by the status of the payment
unfoldable pub finish_purchase :
    PaymentProvider → ℕ → Payment → Option ℕ → PaymentIntentStatus → Action PacksDb PurchaseResult
finish_purchase provider id payment secret refused = do
  update_purchase id (set_purchase_status purchase_failed)
  raise (app_error validation_failed 402)
finish_purchase provider id payment secret PaymentIntentStatus.requires_action =
    pure (record { purchase_id = id; requires_action = true; client_secret = secret })
finish_purchase provider id payment secret requires_capture = capture_now provider id payment
finish_purchase provider id payment secret succeeded = capture_now provider id payment
finish_purchase provider id payment secret canceled = capture_now provider id payment

-- `purchase` after the provider has answered
unfoldable pub settle_pack :
    PaymentProvider
    → ℕ
    → CreditPack
    → CreditPackPurchase
    → PaymentRef
    → Action PacksDb PurchaseResult
settle_pack provider user pack bought ref = do
  payment ← on_payments (create_payment_row (pack_payment user pack ref))
  update_purchase bought.id (λ p. record p { payment_id = some payment.id })
  finish_purchase provider bought.id payment ref.client_secret ref.status

-- `purchase` once the customer is known
unfoldable pub charge_pack :
    PaymentProvider → ℕ → CreditPack → CreditPackPurchase → ℕ → ℕ → Action PacksDb PurchaseResult
charge_pack provider user pack bought method customer = do
  ref ← on_payments (
      ask (payment_request (pack_charge customer bought method pack))
        (provider.create_payment (pack_charge customer bought method pack)))
  settle_pack provider user pack bought ref

-- `purchase` once its row is written
unfoldable pub pay_pack :
    PaymentProvider → ℕ → CreditPack → ℕ → CreditPackPurchase → Action PacksDb PurchaseResult
pay_pack provider user pack method bought = do
  customer ← on_payments (ensure_stripe_customer provider user)
  charge_pack provider user pack bought method customer

abbrev pub sold : Option CreditPack → Result CreditPack
sold none = err (app_error not_found 404)
sold (some pack) = if pack.active then ok pack else err (app_error not_found 404)

-- `purchase`
unfoldable pub purchase : PaymentProvider → ℕ → ℕ → ℕ → Action PacksDb PurchaseResult
purchase provider user pack_id method = do
  found ← gets (find_pack_by_id pack_id)
  pack ← from_result (sold found)
  bought ← from_update (create_purchase pack user)
  pay_pack provider user pack method bought

abbrev pub continue_with :
    PaymentProvider → Payment → Option CreditPackPurchase → Action PacksDb (Unit {0})
continue_with provider payment none s = (ok tt, s)
continue_with provider payment (some p) s =
    if_then (is_pending p.status)
      (do
        on_payments (update_payment_status payment.id transaction_authorized)
        capture_and_credit provider p.id payment.id payment.provider_payment_id)
      s

abbrev pub continue_payment : PaymentProvider → Option Payment → Action PacksDb (Unit {0})
continue_payment provider none s = (ok tt, s)
continue_payment provider (some payment) s =
    continue_with provider payment (find_purchase_by_payment_id payment.id s) s

-- `continueAfterAuthorizationConfirmed`
unfoldable pub continue_after_authorization_confirmed :
    PaymentProvider → ℕ → Action PacksDb (Unit {0})
continue_after_authorization_confirmed provider provider_id = do
  found ← gets (λ db. find_payment_by_provider_payment_id provider_id db.payments)
  continue_payment provider found
