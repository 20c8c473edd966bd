-- ===== src/CreditPacks/Credited.antt =====
-- What `captureAndCredit` (credit-pack.service.ts) does on each answer of the payment provider.
use ardenne_padel_v.CreditPacks.Store.{
  purchase_paid, purchase_credited, purchase_failed, CreditPackPurchase, PacksDb, on_payments,
  is_purchase, find_purchase_by_id, update_purchase, set_purchase_status, is_paid, is_paid_purchase,
  mark_credited_if_paid,
}
use ardenne_padel_v.Prelude.{
  ◌==◌, ==_iff, Bool-cases, and_true, any_by, find_by, update_where, count_by, pos, ◌≤ℤ◌, +ℤ_zero,
  zero_+ℤ, ◌+ℤ◌, negate, validation_failed, Error, app_error, Result, ok, err, integer, ℕ, ◌≡◌,
  refl, sym, ◌∙◌, subst, ◌≢◌, ◌⊎◌, inl, inr, true, some, List, ◌∷◌,
}
use ardenne_padel_v.Prelude.Action.{◌>>=◌}
use ardenne_padel_v.Prelude.Keyed.{
  find_by-update_where, find_by-found, find_by-any_by, IsKeyed, one_selected, update_where-IsKeyed,
}
use ardenne_padel_v.Payments.{
  PaymentIntentStatus, requires_action, requires_capture, succeeded, refused, canceled, PaymentRef,
  capture_request, PaymentProvider, PaymentTransactionStatus, transaction_succeeded,
  transaction_failed, PaymentsDb, update_payment_status,
}
use ardenne_padel_v.CreditPacks.{
  is_succeeded, credit_purchase, credit_captured, fail_purchase, after_capture, capture_and_credit,
}
use ardenne_padel_v.Wallet.Store.{WalletAccount, WalletDb}
use ardenne_padel_v.Wallet.Service.{ensure_account, credit_from_pack_purchase}
use ardenne_padel_v.Wallet.Solvency.{IsValid}
use ardenne_padel_v.Wallet.HoldChange.{Falls}
use ardenne_padel_v.Wallet.Effects.{Falls-trans, Falls-eq}
use ardenne_padel_v.Wallet.Accounts.{IsAccountOf, ensure_account-Falls, pack_credit-accounts}
use ardenne_padel_v.Wallet.Credits.{credit_from_pack_purchase_exact}

abbrev pub with_payment_status : ℕ → PaymentTransactionStatus → PaymentsDb → PaymentsDb
with_payment_status payment status db = record db {
  payments = update_where (λ p. p.id == payment) (λ p. record p { status = status }) db.payments;
}

pub status_updated :
    (payment : ℕ) (status : PaymentTransactionStatus) (db : PaymentsDb)
    → any_by (λ p. p.id == payment) db.payments ≡ true
    → update_payment_status payment status db ≡ (ok tt, with_payment_status payment status db)
unfolding update_payment_status
status_updated payment status db known = rw known

payments_updated :
    (payment : ℕ) (status : PaymentTransactionStatus) (db : PacksDb)
    → any_by (λ p. p.id == payment) db.payments.payments ≡ true
    → on_payments (update_payment_status payment status) db
      ≡ (ok tt, record db { payments = with_payment_status payment status db.payments })
payments_updated payment status db known = rw (status_updated payment status db.payments known)

purchase_updated :
    (id : ℕ) (change : CreditPackPurchase → CreditPackPurchase) (db : PacksDb)
    → any_by (is_purchase id) db.purchases ≡ true
    → update_purchase id change db
      ≡ (ok tt, record db { purchases = update_where (is_purchase id) change db.purchases })
unfolding update_purchase
purchase_updated id change db known = rw known

credit_purchase_lem :
    (id : ℕ) (q : CreditPackPurchase) (a : WalletAccount) (s : PacksDb)
    → find_purchase_by_id id s ≡ some q
    → (ensure_account q.user_id s.wallet).0 ≡ ok a
    → let credit =
        credit_from_pack_purchase a.id q.id
          (integer q.paid_credits_cents)
          (integer q.bonus_credits_cents)
          (ensure_account q.user_id s.wallet).1 in
      credit.0 ≡ ok tt → credit_purchase id s ≡ (ok tt, record s { wallet = credit.1 })
unfolding credit_purchase
credit_purchase_lem id q a s found r r' = rw (found, ◌>>=◌, r, r')

module _ (id payment : ℕ) (p : CreditPackPurchase) (db : PacksDb)
    (keyed : IsKeyed (λ (k : CreditPackPurchase). k.id) db.purchases)
    (found : find_purchase_by_id id db ≡ some p)
    (known : any_by (λ q. q.id == payment) db.payments.payments ≡ true) where
  abbrev paid_rows : List CreditPackPurchase
  paid_rows = update_where (is_purchase id) (set_purchase_status purchase_paid) db.purchases

  abbrev paid_db : PacksDb
  paid_db = record db {
    payments = with_payment_status payment transaction_succeeded db.payments;
    purchases = paid_rows;
  }

  abbrev credited_db : PacksDb
  credited_db = record paid_db {
    purchases =
        update_where (is_paid_purchase id) (set_purchase_status purchase_credited) paid_rows;
  }

  is_it : is_purchase id p ≡ true
  is_it = find_by-found (is_purchase id) db.purchases found

  paid_found : find_by (is_purchase id) paid_rows ≡ some (set_purchase_status purchase_paid p)
  paid_found =
      find_by-update_where (is_purchase id) (is_purchase id) (set_purchase_status purchase_paid)
        db.purchases (λ k. refl) found
      ∙ rw is_it

  credited_found :
      find_purchase_by_id id credited_db ≡ some (set_purchase_status purchase_credited p)
  credited_found =
      find_by-update_where (is_purchase id) (is_paid_purchase id)
        (set_purchase_status purchase_credited) paid_rows (λ k. refl) paid_found
      ∙ rw is_it

  selected : (k : CreditPackPurchase) → is_paid_purchase id k ≡ true → k.id ≡ id
  selected k e = (==_iff k.id id).0 (and_true (is_purchase id k) (is_paid k.status) e).0

  marked_once : count_by (is_paid_purchase id) paid_rows ≡ 1
  marked_once =
      one_selected (λ (k : CreditPackPurchase). k.id) id (is_paid_purchase id)
        (set_purchase_status purchase_credited) selected paid_rows
        (update_where-IsKeyed (λ (k : CreditPackPurchase). k.id) (is_purchase id)
          (set_purchase_status purchase_paid) db.purchases (λ k. refl) keyed)
        paid_found (rw is_it)

  credit_captured_lem : credit_captured id payment db ≡ credit_purchase id credited_db
  unfolding credit_captured mark_credited_if_paid
  credit_captured_lem =
      let a = status_updated payment transaction_succeeded db.payments known in
      let b =
        purchase_updated id (set_purchase_status purchase_paid)
          (record db { payments = with_payment_status payment transaction_succeeded db.payments })
          (find_by-any_by (is_purchase id) db.purchases found) in
      rw (a, ◌>>=◌, a, b, ◌>>=◌, a, b, marked_once)

  -- The two credits of the buyer's account
  pub credited_money :
      IsValid db.wallet
      → pos 0 ≤ℤ p.paid_credits_cents
      → pos 0 ≤ℤ p.bonus_credits_cents
      → (account : WalletAccount) × (wallet : WalletDb) × IsAccountOf p.user_id account db.wallet
          wallet.accounts
        × (credit_captured id payment db ≡ (ok tt, record credited_db { wallet = wallet }))
        × Falls account.id
            (negate p.paid_credits_cents +ℤ negate p.bonus_credits_cents)
            (pos 0)
            db.wallet
            wallet
  credited_money v np nb =
      let (a, own, r, f) = ensure_account-Falls p.user_id db.wallet v in
      let w = (ensure_account p.user_id db.wallet).1 in
      let (r', f') =
        credit_from_pack_purchase_exact a.id p.id p.paid_credits_cents p.bonus_credits_cents w
          (f a.id).valid np nb in
      let w' =
        (credit_from_pack_purchase a.id p.id (integer p.paid_credits_cents)
          (integer p.bonus_credits_cents) w).1 in
      (
        a,
        w',
        subst (IsAccountOf p.user_id a db.wallet)
            (sym (pack_credit-accounts a.id p.id p.paid_credits_cents p.bonus_credits_cents w)) own,
        credit_captured_lem
            ∙ credit_purchase_lem id (set_purchase_status purchase_credited p) a credited_db
                credited_found r r',
        Falls-eq (zero_+ℤ _) (+ℤ_zero (pos 0)) (Falls-trans (f a.id) f'),
      )

-- The store after a request for the capture
abbrev pub asked : ℕ → PacksDb → PacksDb
asked provider_id db = record db {
  payments = record db.payments { requests = capture_request provider_id ∷ db.payments.requests };
}

pub capture_answered :
    (provider : PaymentProvider) (id payment provider_id : ℕ) (ref : PaymentRef) (db : PacksDb)
    → provider.confirm_or_capture provider_id ≡ ok ref
    → capture_and_credit provider id payment provider_id db
      ≡ after_capture id payment (is_succeeded ref.status) (asked provider_id db)
unfolding capture_and_credit
capture_answered provider id payment provider_id ref db e = rw (e, ◌>>=◌)

pub capture_thrown :
    (provider : PaymentProvider) (id payment provider_id : ℕ) (e : Error) (db : PacksDb)
    → provider.confirm_or_capture provider_id ≡ err e
    → capture_and_credit provider id payment provider_id db ≡ (err e, asked provider_id db)
unfolding capture_and_credit
capture_thrown provider id payment provider_id e db eq = rw (eq, ◌>>=◌)

pub fail_purchase_lem :
    (id payment : ℕ) (db : PacksDb)
    → any_by (is_purchase id) db.purchases ≡ true
    → any_by (λ q. q.id == payment) db.payments.payments ≡ true
    → fail_purchase id payment db ≡ (
      err (app_error validation_failed 502),
      record db {
        payments = with_payment_status payment transaction_failed db.payments;
        purchases =
            update_where (is_purchase id) (set_purchase_status purchase_failed) db.purchases;
      },
    )
unfolding fail_purchase
fail_purchase_lem id payment db here known =
    let a = status_updated payment transaction_failed db.payments known in
    let b =
      purchase_updated id (set_purchase_status purchase_failed)
        (record db { payments = with_payment_status payment transaction_failed db.payments })
        here in
    rw (a, ◌>>=◌, a, b, ◌>>=◌, a, b)

-- What a call has done, by the provider's answer to the capture: the exception of the provider, with
-- nothing written; a failed purchase, and no credit; or a purchase that is credited, with both
-- amounts in the account of its buyer, and no other sum changed.
abbrev pub CaptureOutcome :
    ℕ
    → CreditPackPurchase
    → PacksDb
    → Result PaymentRef
    → PacksDb
    → Result (Unit {0}) × PacksDb
    → Type 0
CaptureOutcome id p db (err e) before (r, db') = (r ≡ err e) × (db' ≡ before)
CaptureOutcome id p db (ok ref) before (r, db') =
    ((ref.status ≡ succeeded)
      × (r ≡ ok tt)
      × (find_purchase_by_id id db' ≡ some (set_purchase_status purchase_credited p))
      × ((account : WalletAccount) × IsAccountOf p.user_id account db.wallet db'.wallet.accounts
          × Falls account.id (negate p.paid_credits_cents +ℤ negate p.bonus_credits_cents) (pos 0)
              db.wallet db'.wallet))
    ⊎ ((ref.status ≢ succeeded)
        × (r ≡ err (app_error validation_failed 502))
        × (find_purchase_by_id id db' ≡ some (set_purchase_status purchase_failed p))
        × (db'.wallet ≡ db.wallet))

is_succeeded→eq : (s : PaymentIntentStatus) → is_succeeded s ≡ true → s ≡ succeeded
is_succeeded→eq requires_action t = cc
is_succeeded→eq requires_capture t = cc
is_succeeded→eq succeeded t = refl
is_succeeded→eq refused t = cc
is_succeeded→eq canceled t = cc

-- For a purchase and a payment that are in the tables, in a valid wallet, and credits of zero or
-- more: if the capture throws, `captureAndCredit` throws the same and writes nothing; if the
-- provider has not taken the money, the purchase is FAILED, the call throws and the wallet stays;
-- if it has, the purchase is CREDITED and its buyer's account has gained exactly the paid and the
-- bonus credits: the account that the buyer had, or a new one in the table if there was none. This holds whatever the purchase's status was, CREDITED included.
pub capture_and_credit_lem :
    (provider : PaymentProvider) (id payment provider_id : ℕ) (p : CreditPackPurchase)
    (db : PacksDb)
    → IsValid db.wallet
    → IsKeyed (λ (k : CreditPackPurchase). k.id) db.purchases
    → find_purchase_by_id id db ≡ some p
    → any_by (λ q. q.id == payment) db.payments.payments ≡ true
    → pos 0 ≤ℤ p.paid_credits_cents
    → pos 0 ≤ℤ p.bonus_credits_cents
    → CaptureOutcome id p db
        (provider.confirm_or_capture provider_id)
        (asked provider_id db)
        (capture_and_credit provider id payment provider_id db)
capture_and_credit_lem provider id payment provider_id p db v keyed found known np nb =
    by_answer (provider.confirm_or_capture provider_id) refl
  where
    by_answer :
        (answer : Result PaymentRef)
        → provider.confirm_or_capture provider_id ≡ answer
        → CaptureOutcome id p db answer
            (asked provider_id db)
            (capture_and_credit provider id payment provider_id db)
    by_answer (err e) eq = rw (capture_thrown provider id payment provider_id e db eq) (refl, refl)
    by_answer (ok ref) eq = elim (Bool-cases (is_succeeded ref.status)) [
      | inl done ↦
          let before = asked provider_id db in
          let (a, w, own, e, f) = credited_money id payment p before keyed found known v np nb in
          rw (capture_answered provider id payment provider_id ref db eq, done, e)
            (inl (
              is_succeeded→eq ref.status done,
              refl,
              credited_found id payment p before keyed found known,
              (a, own, f),
            ))
      | inr other ↦
          let before = asked provider_id db in
          let here = find_by-any_by (is_purchase id) db.purchases found in
          rw
            (
              capture_answered provider id payment provider_id ref db eq,
              other,
              fail_purchase_lem id payment before here known,
            )
            (inr (
              λ e. cc (other, e),
              refl,
              find_by-update_where (is_purchase id) (is_purchase id)
                    (set_purchase_status purchase_failed) db.purchases (λ k. refl) found
                  ∙ rw (is_it id payment p before keyed found known),
              refl,
            ))
    ]
