-- ===== src/Bar/Payments.antt =====
-- `NextorePaymentsService` (apps/api/src/modules/nextore/payments.service.ts), method by method, with
-- the queries of payments.repository.ts. An idempotency key is a number.
use ardenne_padel_v.Prelude.{
  ◌==◌, if◌then◌else◌, is_some, find_by, update_where, ℤ, pos, ltb_ℤ, ◌-ℤ◌, plain_error, Number,
  integer, Text, ℕ, suc, not, Option, none, some, ◌∷◌,
}
use ardenne_padel_v.Prelude.Action.{
  Action, pure, raise, gets, or_raise, from_update, attempt, ◌>>=◌, ◌>>◌, modify, raise_if, if_then,
}
use ardenne_padel_v.Wallet.Service.{
  ensure_account, debit_for_nextore_account, refund_for_nextore_account,
}
use ardenne_padel_v.Bar.Store.{
  NextoreAccount, NextoreParticipant, NextorePaymentMethod, cash, card, wallet_credit,
  NextorePaymentStatus, pending, recorded, failed, reversed, NextorePayment, NextoreCashSession,
  payment_recorded, payment_reversed, BarDb, record_audit, on_wallet, validation, integer_from,
  is_blank, find_open_session, is_method, is_recorded, is_reversed,
}
use ardenne_padel_v.Bar.CashSession.{missing_row}
use ardenne_padel_v.Bar.Accounts.{
  find_nextore_account, get_account, get_due_total_cents, takes_money, mark_partially_paid_if_open,
  find_participant,
}

pub record RecordPaymentInput : Type 0 where
  pub account_id : ℕ
  pub participant_id : Option ℕ
  pub amount_cents : Number
  pub method : NextorePaymentMethod
  pub external_reference : Option ℕ
  pub idempotency_key : ℕ
  pub recorded_by_user_id : ℕ

-- What `recordPayment` returns: the row, with the change for a new payment.
pub record PaymentReceipt : Type 0 where
  pub payment : NextorePayment
  pub change_cents : Option ℤ

-- `findByIdempotencyKey`
unfoldable pub find_by_idempotency_key : ℕ → BarDb → Option NextorePayment
find_by_idempotency_key key db = find_by (λ p. p.idempotency_key == key) db.payments

-- `NextorePaymentsRepository.findById`
unfoldable pub find_payment : ℕ → BarDb → Option NextorePayment
find_payment id db = find_by (λ p. p.id == id) db.payments

-- `createPending`, or nothing where the unique key is taken
unfoldable pub create_pending :
    RecordPaymentInput → ℤ → NextorePaymentStatus → Option ℕ → BarDb → Option NextorePayment × BarDb
create_pending input amount status session db =
    let payment : NextorePayment = record {
      id = db.next_id;
      account_id = input.account_id;
      participant_id = input.participant_id;
      amount_cents = amount;
      method = input.method;
      status = status;
      external_reference = input.external_reference;
      cash_session_id = session;
      idempotency_key = input.idempotency_key;
      recorded_by_user_id = input.recorded_by_user_id;
      reversed_by_user_id = none;
      reversed_at = none;
    } in
    if is_some (find_by_idempotency_key input.idempotency_key db)
    then (none, db)
    else (some payment, record db { payments = payment ∷ db.payments; next_id = suc db.next_id })

abbrev pub with_status : NextorePaymentStatus → NextorePayment → NextorePayment
with_status status p = record p { status = status }

-- `markRecorded` and `markFailed`
unfoldable pub mark_recorded : NextorePayment → BarDb → NextorePayment × BarDb
mark_recorded p db = (
  with_status recorded p,
  record db { payments = update_where (λ q. q.id == p.id) (with_status recorded) db.payments },
)

unfoldable pub mark_failed : ℕ → BarDb → BarDb
mark_failed id db = record db {
  payments = update_where (λ q. q.id == id) (with_status failed) db.payments;
}

-- `markReversed`
unfoldable pub mark_reversed : ℕ → ℕ → ℕ → BarDb → BarDb
mark_reversed now id reversed_by db = record db {
  payments =
      update_where (λ q. q.id == id)
        (λ q. record q {
          status = reversed;
          reversed_by_user_id = some reversed_by;
          reversed_at = some now;
        })
        db.payments;
}

-- `afterPaymentRecorded`
unfoldable pub after_payment_recorded : ℕ → ℕ → ℕ → Action BarDb (Unit {0})
after_payment_recorded payment account actor = do
  mark_partially_paid_if_open account
  modify (record_audit actor payment_recorded payment)

-- The row of the request that was first to take the key
unfoldable pub raced_payment : ℕ → Action BarDb PaymentReceipt
raced_payment key = do
  found ← gets (find_by_idempotency_key key)
  raced ← or_raise plain_error found
  pure (record { payment = raced; change_cents = none })

-- `recordPayment` in cash or by card
unfoldable pub pay_directly : RecordPaymentInput → ℤ → ℤ → Option ℕ → Action BarDb PaymentReceipt
pay_directly input amount change session = do
  created ← from_update (create_pending input amount recorded session)
  elim created [
    | none ↦ raced_payment input.idempotency_key
    | some payment ↦ do
      after_payment_recorded payment.id input.account_id input.recorded_by_user_id
      pure (record { payment = payment; change_cents = some change })
  ]

-- The debit of `recordPayment`, with its `catch`
unfoldable pub debit_or_fail : ℕ → ℕ → ℕ → ℤ → Action BarDb (Unit {0})
debit_or_fail payment wallet_account account amount =
    attempt (on_wallet (debit_for_nextore_account wallet_account account (integer amount)))
      (λ e. modify (mark_failed payment) >> raise e)

-- `recordPayment` out of a wallet
unfoldable pub pay_from_wallet :
    RecordPaymentInput → ℤ → ℤ → Option ℕ → ℕ → Action BarDb PaymentReceipt
pay_from_wallet input amount change session customer = do
  wallet_account ← on_wallet (ensure_account customer)
  created ← from_update (create_pending input amount pending session)
  elim created [
    | none ↦ raced_payment input.idempotency_key
    | some payment ↦ do
      debit_or_fail payment.id wallet_account.id input.account_id amount
      paid ← from_update (mark_recorded payment)
      after_payment_recorded paid.id input.account_id input.recorded_by_user_id
      pure (record { payment = paid; change_cents = some change })
  ]

abbrev pub customer_of : Option NextoreParticipant → Option ℕ
customer_of none = none
customer_of (some p) = p.customer_id

-- `participantId ? (await findParticipantById(participantId))?.customerId : account.customerId`
abbrev pub paying_customer : Option ℕ → Option ℕ → BarDb → Option ℕ
paying_customer none account_customer db = account_customer
paying_customer (some id) account_customer db = customer_of (find_participant id db)

abbrev pub session_id : Option NextoreCashSession → Option ℕ
session_id none = none
session_id (some s) = some s.id

-- `Math.max(0, amountCents - dueBeforeCents)`
abbrev pub change_of : ℤ → ℤ → ℤ
change_of amount due = if ltb_ℤ (pos 0) (amount -ℤ due) then amount -ℤ due else pos 0

-- `recordPayment` behind its checks
unfoldable pub pay :
    RecordPaymentInput → ℤ → ℤ → Option ℕ → NextoreAccount → Action BarDb PaymentReceipt
pay input amount change session account = elim input.method [
  | wallet_credit ↦ do
    found ← gets (paying_customer input.participant_id account.customer_id)
    customer ← or_raise validation found
    pay_from_wallet input amount change session customer
  | cash ↦ pay_directly input amount change session
  | card ↦ pay_directly input amount change session
]

-- `recordPayment` for a key that is not known yet
unfoldable pub record_new_payment : RecordPaymentInput → Action BarDb PaymentReceipt
record_new_payment input = do
  amount ← integer_from (pos 1) input.amount_cents
  account ← get_account input.account_id
  raise_if (not (takes_money account.status)) validation
  due ← gets (get_due_total_cents input.account_id)
  session ← gets find_open_session
  pay input amount (change_of amount due) (session_id session) account

-- `recordPayment`
unfoldable pub record_payment : RecordPaymentInput → Action BarDb PaymentReceipt
record_payment input = do
  existing ← gets (find_by_idempotency_key input.idempotency_key)
  elim existing [
    | some payment ↦ pure (record { payment = payment; change_cents = none })
    | none ↦ record_new_payment input
  ]

abbrev pub account_customer : Option NextoreAccount → Option ℕ
account_customer none = none
account_customer (some a) = a.customer_id

-- The customer whose credits `reversePayment` gives back
abbrev pub refunded_customer : NextorePayment → BarDb → Option ℕ
refunded_customer p db =
    paying_customer p.participant_id (account_customer (find_nextore_account p.account_id db)) db

-- The credits that `reversePayment` gives back
unfoldable pub give_back : NextorePayment → Action BarDb (Unit {0})
give_back payment = do
  found ← gets (refunded_customer payment)
  customer ← or_raise validation found
  wallet_account ← on_wallet (ensure_account customer)
  on_wallet (
      refund_for_nextore_account wallet_account.id payment.account_id
        (integer payment.amount_cents))

-- `reversePayment` on a payment that is not reversed yet
unfoldable pub reverse : ℕ → NextorePayment → ℕ → Action BarDb (Unit {0})
reverse now payment reversed_by = do
  raise_if (not (is_recorded payment.status)) validation
  if_then (is_method payment.method wallet_credit) (give_back payment)
  modify (mark_reversed now payment.id reversed_by)
  modify (record_audit reversed_by payment_reversed payment.id)

-- `reversePayment`
unfoldable pub reverse_payment : ℕ → ℕ → Text → ℕ → Action BarDb (Unit {0})
reverse_payment now id reason reversed_by = do
  raise_if (is_blank reason) validation
  found ← gets (find_payment id)
  payment ← or_raise missing_row found
  if_then (not (is_reversed payment.status)) (reverse now payment reversed_by)
