-- ===== src/Bar/Store.antt =====
-- The tables of the bar, with the queries of accounts.repository.ts, payments.repository.ts and
-- cash-session.repository.ts. The newest rows stand first. A quantity is in thousandths, as its
-- column keeps it.
use ardenne_padel_v.Prelude.{
  ◌==◌, if◌then◌else◌, same_option, filter_by, find_by, update_where, ℤ, pos, ltb_ℤ, ◌+ℤ◌,
  validation_failed, Error, app_error, ok, err, Number, integer, fraction, Text, blank, filled, ℕ,
  suc, Bool, true, false, ◌&&◌, Option, none, some, List, [], ◌∷◌,
}
use ardenne_padel_v.Prelude.Action.{Action}
use ardenne_padel_v.Wallet.Store.{WalletDb}

pub data NextoreAccountStatus : Type 0 where
  open_account partially_paid closed_account void anomaly : NextoreAccountStatus

pub record NextoreAccount : Type 0 where
  pub id : ℕ
  pub status : NextoreAccountStatus
  pub label : Option Text
  pub customer_id : Option ℕ
  pub opened_by_user_id : ℕ
  pub closed_at : Option ℕ
  pub version : ℕ

pub record NextoreParticipant : Type 0 where
  pub id : ℕ
  pub account_id : ℕ
  pub customer_id : Option ℕ
  pub display_name : Option Text
  pub left_at : Option ℕ

pub record NextoreArticle : Type 0 where
  pub id : ℕ
  pub price_cents : ℤ
  pub active : Bool

pub data NextoreSaleLineStatus : Type 0 where
  active_line voided : NextoreSaleLineStatus

pub record NextoreSaleLine : Type 0 where
  pub id : ℕ
  pub account_id : ℕ
  pub article_id : ℕ
  pub participant_id : Option ℕ
  pub quantity : ℤ
  pub unit_price_cents_at_sale : ℤ
  pub operator_user_id : ℕ
  pub status : NextoreSaleLineStatus
  pub void_reason : Option Text
  pub voided_by_user_id : Option ℕ
  pub voided_at : Option ℕ

pub data NextorePaymentMethod : Type 0 where
  cash card wallet_credit : NextorePaymentMethod

pub data NextorePaymentStatus : Type 0 where
  pending recorded failed reversed : NextorePaymentStatus

pub record NextorePayment : Type 0 where
  pub id : ℕ
  pub account_id : ℕ
  pub participant_id : Option ℕ
  pub amount_cents : ℤ
  pub method : NextorePaymentMethod
  pub status : NextorePaymentStatus
  pub external_reference : Option ℕ
  pub cash_session_id : Option ℕ
  pub idempotency_key : ℕ
  pub recorded_by_user_id : ℕ
  pub reversed_by_user_id : Option ℕ
  pub reversed_at : Option ℕ

pub data NextoreCashSessionStatus : Type 0 where
  open_session closed_session : NextoreCashSessionStatus

pub record NextoreCashSession : Type 0 where
  pub id : ℕ
  pub status : NextoreCashSessionStatus
  pub opened_by_user_id : ℕ
  pub declared_opening_cents : ℤ
  pub closed_by_user_id : Option ℕ
  pub closed_at : Option ℕ
  pub declared_closing_cents : Option ℤ
  pub theoretical_closing_cents : Option ℤ
  pub variance_cents : Option ℤ
  pub variance_justification : Option Text

pub data NextoreCashMovementType : Type 0 where
  money_in money_out : NextoreCashMovementType

pub record NextoreCashMovement : Type 0 where
  pub id : ℕ
  pub session_id : ℕ
  pub type : NextoreCashMovementType
  pub amount_cents : ℤ
  pub reason : Text
  pub created_by_user_id : ℕ

pub data AuditAction : Type 0 where
  cash_session_opened cash_movement_recorded cash_session_closed account_opened : AuditAction
  line_added line_voided account_closed payment_recorded payment_reversed : AuditAction

pub record AuditEntry : Type 0 where
  pub actor_user_id : ℕ
  pub action : AuditAction
  pub target_id : ℕ

pub record BarDb : Type 0 where
  pub accounts : List NextoreAccount
  pub participants : List NextoreParticipant
  pub articles : List NextoreArticle
  pub lines : List NextoreSaleLine
  pub payments : List NextorePayment
  pub sessions : List NextoreCashSession
  pub movements : List NextoreCashMovement
  pub audit : List AuditEntry
  pub wallet : WalletDb
  pub next_id : ℕ

-- `auditLog.record`
unfoldable pub record_audit : ℕ → AuditAction → ℕ → BarDb → BarDb
record_audit actor action target db = record db {
  audit = record { actor_user_id = actor; action = action; target_id = target } ∷ db.audit;
}

-- A step on the wallet tables alone.
abbrev pub on_wallet : {A : Type 0} → Action WalletDb A → Action BarDb A
on_wallet m db = let (r, w) = m db.wallet in (r, record db { wallet = w })

abbrev pub validation : Error
validation = app_error validation_failed 422

-- `if (!Number.isInteger(n) || n < least) throw`
abbrev pub integer_from : ℤ → Number → Action BarDb ℤ
integer_from least (integer n) db = (if ltb_ℤ n least then err validation else ok n, db)
integer_from least fraction db = (err validation, db)

abbrev pub is_blank : Text → Bool
is_blank blank = true
is_blank (filled _) = false

-- `!text?.trim()`
abbrev pub is_missing : Option Text → Bool
is_missing none = true
is_missing (some t) = is_blank t

abbrev pub is_open_session : NextoreCashSession → Bool
is_open_session s = elim s.status [ open_session ↦ true | closed_session ↦ false ]

-- `findOpenSession`
unfoldable pub find_open_session : BarDb → Option NextoreCashSession
find_open_session db = find_by is_open_session db.sessions

-- `NextoreCashSessionRepository.findById`
unfoldable pub find_session : ℕ → BarDb → Option NextoreCashSession
find_session id db = find_by (λ s. s.id == id) db.sessions

-- `NextoreCashSessionRepository.create`
unfoldable pub create_session : ℕ → ℤ → BarDb → NextoreCashSession × BarDb
create_session opened_by declared db =
    let session : NextoreCashSession = record {
      id = db.next_id;
      status = open_session;
      opened_by_user_id = opened_by;
      declared_opening_cents = declared;
      closed_by_user_id = none;
      closed_at = none;
      declared_closing_cents = none;
      theoretical_closing_cents = none;
      variance_cents = none;
      variance_justification = none;
    } in
    (session, record db { sessions = session ∷ db.sessions; next_id = suc db.next_id })

-- `NextoreCashSessionRepository.close`, the other columns changed by a function
unfoldable pub close_row : ℕ → (NextoreCashSession → NextoreCashSession) → BarDb → BarDb
close_row id change db = record db {
  sessions =
      update_where (λ s. s.id == id) (λ s. record (change s) { status = closed_session })
        db.sessions;
}

-- `addMovement`
unfoldable pub add_movement :
    ℕ → NextoreCashMovementType → ℤ → Text → ℕ → BarDb → NextoreCashMovement × BarDb
add_movement session type amount reason created_by db =
    let movement : NextoreCashMovement = record {
      id = db.next_id;
      session_id = session;
      type = type;
      amount_cents = amount;
      reason = reason;
      created_by_user_id = created_by;
    } in
    (movement, record db { movements = movement ∷ db.movements; next_id = suc db.next_id })

-- `listMovements`
unfoldable pub list_movements : ℕ → BarDb → List NextoreCashMovement
list_movements session db = filter_by (λ m. m.session_id == session) db.movements

abbrev pub is_method : NextorePaymentMethod → NextorePaymentMethod → Bool
is_method cash cash = true
is_method card card = true
is_method wallet_credit wallet_credit = true
is_method _ _ = false

abbrev pub is_recorded : NextorePaymentStatus → Bool
is_recorded recorded = true
is_recorded _ = false

abbrev pub is_reversed : NextorePaymentStatus → Bool
is_reversed reversed = true
is_reversed _ = false

-- `aggregate({ where, _sum: { amountCents: true } })` on payments
unfoldable pub sum_payments : (NextorePayment → Bool) → List NextorePayment → ℤ
sum_payments p [] = pos 0
sum_payments p (x ∷ xs) = (if p x then x.amount_cents else pos 0) +ℤ sum_payments p xs

abbrev pub in_session : ℕ → NextorePaymentMethod → NextorePayment → Bool
in_session session method p =
    same_option p.cash_session_id (some session)
    && (is_method p.method method && is_recorded p.status)

-- `getCashPaymentsTotalCents`
unfoldable pub get_cash_payments_total_cents : ℕ → BarDb → ℤ
get_cash_payments_total_cents session db = sum_payments (in_session session cash) db.payments
