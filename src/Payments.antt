-- ===== src/Payments.antt =====
-- Payments and the payment provider: apps/api/src/modules/payments/types.ts,
-- payments.repository.ts and ensure-stripe-customer.ts. The provider is outside of the program: its
-- answers are a parameter, and every request to it is recorded in the store in place of its effect.
-- Of a payment the columns that the modelled services read or write are kept.
use ardenne_padel_v.Prelude.{
  ◌==◌, if◌then◌else◌, any_by, find_by, update_where, ℤ, plain_error, Result, ok, err, ℕ, suc,
  Option, none, some, List, ◌∷◌,
}
use ardenne_padel_v.Prelude.Action.{Action, pure, gets, or_raise, ◌>>=◌, ◌>>◌, modify}

pub data PaymentIntentStatus : Type 0 where
  requires_action requires_capture succeeded refused canceled : PaymentIntentStatus

pub record PaymentRef : Type 0 where
  pub provider_payment_id : ℕ
  pub status : PaymentIntentStatus
  pub client_secret : Option ℕ

-- `creditpack:…`, `share:…` and `guarantee-capture:…`
pub data IdempotencyKey : Type 0 where
  for_creditpack for_share for_guarantee_capture : ℕ → IdempotencyKey

-- `CreatePaymentInput` and `ChargeSavedMethodInput`; the currency is always EUR.
pub record PaymentInput : Type 0 where
  pub customer_id : ℕ
  pub payment_method_id : ℕ
  pub amount_cents : ℤ
  pub idempotency_key : IdempotencyKey

pub data ProviderRequest : Type 0 where
  customer_request : ℕ → ProviderRequest
  payment_request : PaymentInput → ProviderRequest
  saved_method_request : PaymentInput → ProviderRequest
  capture_request : ℕ → ProviderRequest

-- The calls of `PaymentProvider` that the modelled services make; each may throw.
pub record PaymentProvider : Type 0 where
  pub create_customer : ℕ → Result ℕ
  pub create_payment : PaymentInput → Result PaymentRef
  pub confirm_or_capture : ℕ → Result PaymentRef
  pub charge_saved_method : PaymentInput → Result PaymentRef

pub data PaymentTransactionStatus : Type 0 where
  transaction_pending transaction_requires_action : PaymentTransactionStatus
  transaction_authorized transaction_succeeded : PaymentTransactionStatus
  transaction_failed transaction_canceled : PaymentTransactionStatus

pub data PaymentPurpose : Type 0 where
  booking_full booking_share credit_pack_purchase : PaymentPurpose

pub record Payment : Type 0 where
  pub id : ℕ
  pub user_id : ℕ
  pub booking_id : Option ℕ
  pub provider_payment_id : ℕ
  pub amount_cents : ℤ
  pub status : PaymentTransactionStatus
  pub purpose : PaymentPurpose

pub record User : Type 0 where
  pub id : ℕ
  pub stripe_customer_id : Option ℕ

pub record PaymentsDb : Type 0 where
  pub payments : List Payment
  pub users : List User
  pub requests : List ProviderRequest
  pub next_id : ℕ

-- A request to the provider and its answer
abbrev pub ask : {A : Type 0} → ProviderRequest → Result A → Action PaymentsDb A
ask request answer db = (answer, record db { requests = request ∷ db.requests })

-- `findPaymentByProviderPaymentId`
unfoldable pub find_payment_by_provider_payment_id : ℕ → PaymentsDb → Option Payment
find_payment_by_provider_payment_id provider_id db =
    find_by (λ p. p.provider_payment_id == provider_id) db.payments

-- `createPayment`: the provider's id of a payment is unique in the table.
unfoldable pub create_payment_row : (ℕ → Payment) → Action PaymentsDb Payment
create_payment_row row db =
    let payment = row db.next_id in
    if any_by (λ p. p.provider_payment_id == payment.provider_payment_id) db.payments
    then (err plain_error, db)
    else (ok payment, record db { payments = payment ∷ db.payments; next_id = suc db.next_id })

-- `updatePaymentStatus`, which throws if there is no such row
unfoldable pub update_payment_status : ℕ → PaymentTransactionStatus → Action PaymentsDb (Unit {0})
update_payment_status id status db =
    if any_by (λ p. p.id == id) db.payments
    then (
      ok tt,
      record db {
        payments = update_where (λ p. p.id == id) (λ p. record p { status = status }) db.payments;
      },
    )
    else (err plain_error, db)

-- `findUserForPayment`
abbrev pub find_user_for_payment : ℕ → PaymentsDb → Option User
find_user_for_payment id db = find_by (λ u. u.id == id) db.users

-- `updateUserStripeCustomerId` of a user that was found
abbrev pub update_user_stripe_customer_id : ℕ → ℕ → PaymentsDb → PaymentsDb
update_user_stripe_customer_id id customer db = record db {
  users =
      update_where (λ u. u.id == id) (λ u. record u { stripe_customer_id = some customer })
        db.users;
}

-- The customer of a user that was found: the known one, or a new one that is remembered
abbrev pub customer_of : PaymentProvider → ℕ → Option ℕ → Action PaymentsDb ℕ
customer_of provider user (some customer) = pure customer
customer_of provider user none = do
  customer ← ask (customer_request user) (provider.create_customer user)
  modify (update_user_stripe_customer_id user customer)
  pure customer

-- `ensureStripeCustomer`, its `customerId`
unfoldable pub ensure_stripe_customer : PaymentProvider → ℕ → Action PaymentsDb ℕ
ensure_stripe_customer provider id = do
  found ← gets (find_user_for_payment id)
  user ← or_raise plain_error found
  customer_of provider user.id user.stripe_customer_id
