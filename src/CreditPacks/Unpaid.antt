-- ===== src/CreditPacks/Unpaid.antt =====
-- No credits without a captured payment (credit-pack.service.ts).
use ardenne_padel_v.CreditPacks.Store.{
  CreditPack, purchase_failed, CreditPackPurchase, PacksDb, on_payments, find_pack_by_id,
  is_purchase, find_purchase_by_payment_id, create_purchase, update_purchase, set_purchase_status,
  is_pending,
}
use ardenne_padel_v.Prelude.{
  Bool-cases, any_by, validation_failed, Error, app_error, Result, ok, err, ℕ, ◌≡◌, refl, ◌∙◌, inl,
  inr, false, Option, none, some,
}
use ardenne_padel_v.Prelude.Action.{Action, pure, raise, ◌>>=◌, ◌>>◌}
use ardenne_padel_v.Payments.{
  PaymentIntentStatus, requires_capture, succeeded, refused, canceled, PaymentRef, payment_request,
  PaymentProvider, transaction_authorized, transaction_failed, Payment, PaymentsDb, ask,
  find_payment_by_provider_payment_id, create_payment_row, update_payment_status,
  ensure_stripe_customer,
}
use ardenne_padel_v.CreditPacks.{
  is_succeeded, fail_purchase, capture_and_credit, PurchaseResult, pack_charge, pack_payment,
  capture_now, finish_purchase, settle_pack, charge_pack, pay_pack, sold, purchase, continue_with,
  continue_payment, continue_after_authorization_confirmed,
}
use ardenne_padel_v.CreditPacks.Credited.{asked, capture_answered, capture_thrown}

-- Whatever an action does, the wallet stays.
abbrev KeepsWallet : {A : Type 0} → Action PacksDb A → Type 0
KeepsWallet m = (s : PacksDb) → (m s).1.wallet ≡ s.wallet

bind-KeepsWallet :
    {A B : Type 0} (m : Action PacksDb A) (f : A → Action PacksDb B)
    → KeepsWallet m
    → ((a : A) → KeepsWallet (f a))
    → KeepsWallet (m >>= f)
bind-KeepsWallet {A} {B} m f k l s = by_outcome (m s).0 (m s).1 (k s)
  where
    by_outcome :
        (r : Result A) (t : PacksDb)
        → t.wallet ≡ s.wallet
        → (elim r as (λ _. Result B × PacksDb) [ ok a ↦ f a t | err e ↦ (err e, t) ]).1.wallet
          ≡ s.wallet
    by_outcome (ok a) t same = l a t ∙ same
    by_outcome (err e) t same = same

update_purchase-KeepsWallet :
    (id : ℕ) (change : CreditPackPurchase → CreditPackPurchase)
    → KeepsWallet (update_purchase id change)
unfolding update_purchase
update_purchase-KeepsWallet id change s = elim (Bool-cases (any_by (is_purchase id) s.purchases)) [
  | inl e ↦ rw e
  | inr e ↦ rw e
]

on_payments-KeepsWallet : {A : Type 0} (m : Action PaymentsDb A) → KeepsWallet (on_payments m)
on_payments-KeepsWallet m s = refl

raise_after :
    (A : Type 0) (id : ℕ) (change : CreditPackPurchase → CreditPackPurchase) (e : Error)
    → KeepsWallet {A = A} (update_purchase id change >> raise e)
raise_after A id change e =
    bind-KeepsWallet (update_purchase id change) (λ _. raise e)
      (update_purchase-KeepsWallet id change) (λ _ s. refl)

fail_purchase-KeepsWallet : (id payment : ℕ) → KeepsWallet (fail_purchase id payment)
unfolding fail_purchase
fail_purchase-KeepsWallet id payment =
    bind-KeepsWallet (on_payments (update_payment_status payment transaction_failed))
      (λ _.
        update_purchase id (set_purchase_status purchase_failed)
        >> raise (app_error validation_failed 502))
      (on_payments-KeepsWallet (update_payment_status payment transaction_failed))
      (λ _.
        raise_after (Unit {0}) id (set_purchase_status purchase_failed)
          (app_error validation_failed 502))

-- A provider that takes no money: no capture succeeds.
module _ (provider : PaymentProvider)
    (takes_nothing : (provider_id : ℕ) (ref : PaymentRef)
      → provider.confirm_or_capture provider_id ≡ ok ref
      → is_succeeded ref.status ≡ false) where
  capture-KeepsWallet :
      (id payment provider_id : ℕ)
      → KeepsWallet (capture_and_credit provider id payment provider_id)
  capture-KeepsWallet id payment provider_id s =
      by_answer (provider.confirm_or_capture provider_id) refl
    where
      by_answer :
          (answer : Result PaymentRef)
          → provider.confirm_or_capture provider_id ≡ answer
          → (capture_and_credit provider id payment provider_id s).1.wallet ≡ s.wallet
      by_answer (err e) eq = rw (capture_thrown provider id payment provider_id e s eq)
      by_answer (ok ref) eq =
          rw
            (
              capture_answered provider id payment provider_id ref s eq,
              takes_nothing provider_id ref eq,
            )
            (fail_purchase-KeepsWallet id payment (asked provider_id s))

  capture_now-KeepsWallet :
      (id : ℕ) (payment : Payment) → KeepsWallet (capture_now provider id payment)
  capture_now-KeepsWallet id payment =
      bind-KeepsWallet (capture_and_credit provider id payment.id payment.provider_payment_id)
        (λ _. pure (record { purchase_id = id; requires_action = false; client_secret = none }))
        (capture-KeepsWallet id payment.id payment.provider_payment_id) (λ _ s. refl)

  finish-KeepsWallet :
      (id : ℕ) (payment : Payment) (secret : Option ℕ) (status : PaymentIntentStatus)
      → KeepsWallet (finish_purchase provider id payment secret status)
  unfolding finish_purchase
  finish-KeepsWallet id payment secret refused =
      raise_after PurchaseResult id (set_purchase_status purchase_failed)
        (app_error validation_failed 402)
  finish-KeepsWallet id payment secret PaymentIntentStatus.requires_action = λ s. refl
  finish-KeepsWallet id payment secret requires_capture = capture_now-KeepsWallet id payment
  finish-KeepsWallet id payment secret succeeded = capture_now-KeepsWallet id payment
  finish-KeepsWallet id payment secret canceled = capture_now-KeepsWallet id payment

  settle-KeepsWallet :
      (user : ℕ) (pack : CreditPack) (bought : CreditPackPurchase) (ref : PaymentRef)
      → KeepsWallet (settle_pack provider user pack bought ref)
  unfolding settle_pack
  settle-KeepsWallet user pack bought ref =
      bind-KeepsWallet (on_payments (create_payment_row (pack_payment user pack ref)))
        (λ payment.
          update_purchase bought.id (λ p. record p { payment_id = some payment.id })
          >> finish_purchase provider bought.id payment ref.client_secret ref.status)
        (on_payments-KeepsWallet (create_payment_row (pack_payment user pack ref)))
        (λ payment.
          bind-KeepsWallet
            (update_purchase bought.id (λ p. record p { payment_id = some payment.id }))
            (λ _. finish_purchase provider bought.id payment ref.client_secret ref.status)
            (update_purchase-KeepsWallet bought.id (λ p. record p { payment_id = some payment.id }))
            (λ _. finish-KeepsWallet bought.id payment ref.client_secret ref.status))

  charge-KeepsWallet :
      (user : ℕ) (pack : CreditPack) (bought : CreditPackPurchase) (method customer : ℕ)
      → KeepsWallet (charge_pack provider user pack bought method customer)
  unfolding charge_pack
  charge-KeepsWallet user pack bought method customer =
      let input = pack_charge customer bought method pack in
      bind-KeepsWallet (on_payments (ask (payment_request input) (provider.create_payment input)))
        (λ ref. settle_pack provider user pack bought ref)
        (on_payments-KeepsWallet (ask (payment_request input) (provider.create_payment input)))
        (λ ref. settle-KeepsWallet user pack bought ref)

  pay-KeepsWallet :
      (user : ℕ) (pack : CreditPack) (method : ℕ) (bought : CreditPackPurchase)
      → KeepsWallet (pay_pack provider user pack method bought)
  unfolding pay_pack
  pay-KeepsWallet user pack method bought =
      bind-KeepsWallet (on_payments (ensure_stripe_customer provider user))
        (λ customer. charge_pack provider user pack bought method customer)
        (on_payments-KeepsWallet (ensure_stripe_customer provider user))
        (λ customer. charge-KeepsWallet user pack bought method customer)

  purchase-KeepsWallet :
      (user pack_id method : ℕ) → KeepsWallet (purchase provider user pack_id method)
  unfolding purchase
  purchase-KeepsWallet user pack_id method s = by_pack (sold (find_pack_by_id pack_id s))
    where
      by_pack :
          (r : Result CreditPack)
          → (elim r as (λ _. Result PurchaseResult × PacksDb) [
            | ok pack ↦
                let (bought, t) = create_purchase pack user s in
                pay_pack provider user pack method bought t
            | err e ↦ (err e, s)
          ]).1.wallet
            ≡ s.wallet
      by_pack (ok pack) =
          pay-KeepsWallet user pack method (create_purchase pack user s).0
            (create_purchase pack user s).1
      by_pack (err e) = refl

  authorized-KeepsWallet :
      (p : CreditPackPurchase) (payment : Payment)
      → KeepsWallet (
          on_payments (update_payment_status payment.id transaction_authorized)
          >> capture_and_credit provider p.id payment.id payment.provider_payment_id)
  authorized-KeepsWallet p payment =
      bind-KeepsWallet (on_payments (update_payment_status payment.id transaction_authorized))
        (λ _. capture_and_credit provider p.id payment.id payment.provider_payment_id)
        (on_payments-KeepsWallet (update_payment_status payment.id transaction_authorized))
        (λ _. capture-KeepsWallet p.id payment.id payment.provider_payment_id)

  continue-KeepsWallet :
      (provider_id : ℕ) → KeepsWallet (continue_after_authorization_confirmed provider provider_id)
  unfolding continue_after_authorization_confirmed
  continue-KeepsWallet provider_id s =
      by_payment (find_payment_by_provider_payment_id provider_id s.payments)
    where
      by_purchase :
          (payment : Payment) (found : Option CreditPackPurchase)
          → (continue_with provider payment found s).1.wallet ≡ s.wallet
      by_purchase payment none = refl
      by_purchase payment (some p) = elim (Bool-cases (is_pending p.status)) [
        | inl e ↦ rw e (authorized-KeepsWallet p payment s)
        | inr e ↦ rw e
      ]

      by_payment :
          (found : Option Payment) → (continue_payment provider found s).1.wallet ≡ s.wallet
      by_payment none = refl
      by_payment (some payment) = by_purchase payment (find_purchase_by_payment_id payment.id s)

-- As long as the provider's captures do not succeed, no wallet changes: neither by `purchase`, for
-- any user, pack and method, nor by `continueAfterAuthorizationConfirmed`, for any payment, whatever
-- else the provider answers and whatever is in the tables.
pub unpaid_no_credit :
    (provider : PaymentProvider) (user pack_id method provider_id : ℕ) (db : PacksDb)
    → ((id : ℕ) (ref : PaymentRef)
        → provider.confirm_or_capture id ≡ ok ref
        → is_succeeded ref.status ≡ false)
    → ((purchase provider user pack_id method db).1.wallet ≡ db.wallet)
      × ((continue_after_authorization_confirmed provider provider_id db).1.wallet ≡ db.wallet)
unpaid_no_credit provider user pack_id method provider_id db takes_nothing = (
  purchase-KeepsWallet provider takes_nothing user pack_id method db,
  continue-KeepsWallet provider takes_nothing provider_id db,
)
