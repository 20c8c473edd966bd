-- ===== src/CreditPacks/Once.antt =====
-- A second confirmation of the same payment (credit-pack.service.ts,
-- `continueAfterAuthorizationConfirmed`).
use ardenne_padel_v.CreditPacks.Store.{
  CreditPackPurchaseStatus, purchase_paid, purchase_credited, purchase_failed, CreditPackPurchase,
  PacksDb, is_purchase, find_purchase_by_id, find_purchase_by_payment_id, set_purchase_status,
  is_pending, is_paid_purchase,
}
use ardenne_padel_v.Prelude.{
  ◌==◌, same_option, ==_iff, ==_refl, Bool-cases, any_by, find_by, update_where, pos, ◌≤ℤ◌, Result,
  ok, ℕ, ◌≡◌, refl, sym, ◌∙◌, subst, inl, inr, Bool, true, false, some, List,
}
use ardenne_padel_v.Prelude.Action.{◌>>=◌}
use ardenne_padel_v.Payments.{
  PaymentRef, PaymentProvider, PaymentTransactionStatus, transaction_authorized,
  transaction_succeeded, transaction_failed, Payment, PaymentsDb,
  find_payment_by_provider_payment_id,
}
use ardenne_padel_v.CreditPacks.{
  is_succeeded, after_capture, capture_and_credit, continue_after_authorization_confirmed,
}
use ardenne_padel_v.CreditPacks.Credited.{
  with_payment_status, status_updated, credited_money, asked, capture_answered, fail_purchase_lem,
}
use ardenne_padel_v.Prelude.Keyed.{
  find_by-update_where, find_by-any_by, IsKeyed, find_by-satisfies, find_by-key,
}
use ardenne_padel_v.Wallet.Solvency.{IsValid}

-- A confirmation of a payment whose purchase is no longer pending does nothing.
settled :
    (provider : PaymentProvider) (provider_id : ℕ) (payment : Payment) (q : CreditPackPurchase)
    (db : PacksDb)
    → find_payment_by_provider_payment_id provider_id db.payments ≡ some payment
    → find_purchase_by_payment_id payment.id db ≡ some q
    → is_pending q.status ≡ false
    → continue_after_authorization_confirmed provider provider_id db ≡ (ok tt, db)
unfolding continue_after_authorization_confirmed
settled provider provider_id payment q db a b c = rw (a, ◌>>=◌, b, c)

pending :
    (provider : PaymentProvider) (provider_id : ℕ) (payment : Payment) (p : CreditPackPurchase)
    (db : PacksDb)
    → find_payment_by_provider_payment_id provider_id db.payments ≡ some payment
    → find_purchase_by_payment_id payment.id db ≡ some p
    → is_pending p.status ≡ true
    → any_by (λ q. q.id == payment.id) db.payments.payments ≡ true
    → continue_after_authorization_confirmed provider provider_id db
      ≡ capture_and_credit provider p.id payment.id payment.provider_payment_id (record db {
        payments = with_payment_status payment.id transaction_authorized db.payments;
      })
unfolding continue_after_authorization_confirmed
pending provider provider_id payment p db a b c known =
    let u = status_updated payment.id transaction_authorized db.payments known in
    rw (a, ◌>>=◌, b, c, u, ◌>>=◌, u)

-- The payment is found after its status has changed.
payment_found :
    (provider_id payment : ℕ) (status : PaymentTransactionStatus) (db : PaymentsDb) {x : Payment}
    → find_payment_by_provider_payment_id provider_id db ≡ some x
    → x.id ≡ payment
    → (x' : Payment) × (x'.id ≡ payment)
      × (find_payment_by_provider_payment_id provider_id (with_payment_status payment status db)
          ≡ some x')
unfolding find_payment_by_provider_payment_id
payment_found provider_id payment status db {x} found same =
    let found' =
      find_by-update_where (λ p. p.provider_payment_id == provider_id) (λ p. p.id == payment)
        (λ p. record p { status = status }) db.payments (λ k. refl) found in
    (record x { status = status }, same, found' ∙ rw ((==_iff x.id payment).1 same))

-- A purchase is found by its payment after a change of its status.
purchase_found :
    (payment : ℕ) (p : CreditPackPurchase → Bool) (status : CreditPackPurchaseStatus)
    (rows : List CreditPackPurchase) {x : CreditPackPurchase}
    → find_by (λ k. same_option k.payment_id (some payment)) rows ≡ some x
    → p x ≡ true
    → find_by
        (λ k. same_option k.payment_id (some payment))
        (update_where p (set_purchase_status status) rows)
      ≡ some (set_purchase_status status x)
purchase_found payment p status rows {x} found hit =
    find_by-update_where (λ k. same_option k.payment_id (some payment)) p
      (set_purchase_status status) rows (λ k. refl) found
    ∙ rw hit

module _ (provider other_provider : PaymentProvider) (provider_id : ℕ) (payment : Payment)
    (p : CreditPackPurchase) (db : PacksDb)
    (found : find_payment_by_provider_payment_id provider_id db.payments ≡ some payment)
    (bought : find_purchase_by_payment_id payment.id db ≡ some p)
    (keyed : IsKeyed (λ (k : CreditPackPurchase). k.id) db.purchases) (v : IsValid db.wallet)
    (np : pos 0 ≤ℤ p.paid_credits_cents) (nb : pos 0 ≤ℤ p.bonus_credits_cents)
    (waits : is_pending p.status ≡ true) where
  abbrev Again : PacksDb → Type 0
  Again s = continue_after_authorization_confirmed other_provider provider_id s ≡ (ok tt, s)

  abbrev confirmed : Result (Unit {0}) × PacksDb
  confirmed = continue_after_authorization_confirmed provider provider_id db

  by_id : find_purchase_by_id p.id db ≡ some p
  by_id =
      find_by-key (λ (k : CreditPackPurchase). k.id)
        (λ k. same_option k.payment_id (some payment.id)) db.purchases keyed bought

  listed : any_by (λ q. q.id == payment.id) db.payments.payments ≡ true
  unfolding find_payment_by_provider_payment_id
  listed =
      find_by-satisfies (λ q. q.provider_payment_id == provider_id) (λ q. q.id == payment.id)
        db.payments.payments found (==_refl payment.id)

  abbrev authorized_db : PacksDb
  authorized_db = record db {
    payments = with_payment_status payment.id transaction_authorized db.payments;
  }

  abbrev before : PacksDb
  before = asked payment.provider_payment_id authorized_db

  still_listed : any_by (λ q. q.id == payment.id) before.payments.payments ≡ true
  unfolding find_payment_by_provider_payment_id
  still_listed =
      let (x, same, f) =
        payment_found provider_id payment.id transaction_authorized db.payments found refl in
      find_by-satisfies (λ q. q.provider_payment_id == provider_id) (λ q. q.id == payment.id) _ f
        ((==_iff x.id payment.id).1 same)

  -- In any store with these payments, and the purchase in another status
  settled_after :
      (status : PaymentTransactionStatus) (q : CreditPackPurchase) (s : PacksDb)
      → s.payments ≡ with_payment_status payment.id status before.payments
      → find_purchase_by_payment_id payment.id s ≡ some q
      → is_pending q.status ≡ false
      → Again s
  unfolding find_payment_by_provider_payment_id
  settled_after status q s e b off =
      let (x, same, f) =
        payment_found provider_id payment.id transaction_authorized db.payments found refl in
      let (x', same', f') = payment_found provider_id payment.id status before.payments f same in
      settled other_provider provider_id x' q s (rw e f')
        (subst (λ n. find_purchase_by_payment_id n s ≡ some q) (sym same') b) off

  is_the_one : is_purchase p.id p ≡ true
  is_the_one = ==_refl p.id

  first_call :
      (ref : PaymentRef)
      → provider.confirm_or_capture payment.provider_payment_id ≡ ok ref
      → confirmed ≡ after_capture p.id payment.id (is_succeeded ref.status) before
  first_call ref e =
      pending provider provider_id payment p db found bought waits listed
      ∙ capture_answered provider p.id payment.id payment.provider_payment_id ref authorized_db e

  second_call :
      (ref : PaymentRef)
      → provider.confirm_or_capture payment.provider_payment_id ≡ ok ref
      → Again confirmed.1
  second_call ref e = elim (Bool-cases (is_succeeded ref.status)) [
    | inl done ↦
        let (a, w, own, eq, f) =
          credited_money p.id payment.id p before keyed by_id still_listed v np nb in
        let once =
          purchase_found payment.id (is_purchase p.id) purchase_paid db.purchases bought
            is_the_one in
        let twice =
          purchase_found payment.id (is_paid_purchase p.id) purchase_credited _ once
            (rw is_the_one) in
        rw (first_call ref e, done, eq)
          (settled_after transaction_succeeded (set_purchase_status purchase_credited p) _ refl
            twice refl)
    | inr other ↦
        let here = find_by-any_by (is_purchase p.id) db.purchases by_id in
        let once =
          purchase_found payment.id (is_purchase p.id) purchase_failed db.purchases bought
            is_the_one in
        rw (first_call ref e, other, fail_purchase_lem p.id payment.id before here still_listed)
          (settled_after transaction_failed (set_purchase_status purchase_failed p) _ refl once
            refl)
  ]

-- For a payment and its purchase that are in the tables, in a valid wallet, and credits of zero or
-- more: once the provider has answered the capture of a confirmed payment, whatever it answered, a
-- further call of `continueAfterAuthorizationConfirmed` for this payment succeeds, asks the provider
-- for nothing and changes nothing.
pub continue_once :
    (provider other_provider : PaymentProvider) (provider_id : ℕ) (payment : Payment)
    (p : CreditPackPurchase) (ref : PaymentRef) (db : PacksDb)
    → find_payment_by_provider_payment_id provider_id db.payments ≡ some payment
    → find_purchase_by_payment_id payment.id db ≡ some p
    → IsKeyed (λ (k : CreditPackPurchase). k.id) db.purchases
    → IsValid db.wallet
    → pos 0 ≤ℤ p.paid_credits_cents
    → pos 0 ≤ℤ p.bonus_credits_cents
    → provider.confirm_or_capture payment.provider_payment_id ≡ ok ref
    → let (_, db') = continue_after_authorization_confirmed provider provider_id db in
      continue_after_authorization_confirmed other_provider provider_id db' ≡ (ok tt, db')
continue_once provider other_provider provider_id payment p ref db found bought keyed v np nb e =
    elim (Bool-cases (is_pending p.status)) [
      | inl waits ↦
          second_call provider other_provider provider_id payment p db found bought keyed v np nb
            waits ref e
      | inr off ↦
          rw (settled provider provider_id payment p db found bought off)
            (settled other_provider provider_id payment p db found bought off)
    ]
