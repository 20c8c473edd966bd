-- ===== src/Bar/CashSession.antt =====
-- `NextoreCashSessionService` (apps/api/src/modules/nextore/cash-session.service.ts), method by
-- method. The time of a call is its argument `now`.
use ardenne_padel_v.Prelude.{
  if◌then◌else◌, is_some, same_option, count_by, ℤ, pos, ltb_ℤ, sum_ℤ, ◌+ℤ◌, ◌-ℤ◌, negate, abs_ℤ,
  not_found, cash_session_already_open, Error, app_error, Number, Text, ℕ, Bool, not, ◌&&◌, Option,
  none, some, List, map,
}
use ardenne_padel_v.Prelude.Action.{
  Action, pure, gets, or_raise, from_update, ◌>>=◌, ◌>>◌, modify, raise_if,
}
use ardenne_padel_v.Bar.Store.{
  cash, card, wallet_credit, NextoreCashSession, NextoreCashMovementType, money_in, money_out,
  NextoreCashMovement, cash_session_opened, cash_movement_recorded, cash_session_closed, BarDb,
  record_audit, validation, integer_from, is_blank, is_missing, is_open_session, find_open_session,
  find_session, create_session, close_row, add_movement, list_movements, is_reversed, sum_payments,
  in_session, get_cash_payments_total_cents,
}

-- `VARIANCE_JUSTIFICATION_THRESHOLD_CENTS`
abbrev pub variance_justification_threshold_cents : ℤ
variance_justification_threshold_cents = pos 500

abbrev pub already_open : Error
already_open = app_error cash_session_already_open 409

-- `openSession`
unfoldable pub open_cash_session : ℕ → Number → Action BarDb NextoreCashSession
open_cash_session opened_by number = do
  declared ← integer_from (pos 0) number
  existing ← gets find_open_session
  raise_if (is_some existing) already_open
  session ← from_update (create_session opened_by declared)
  modify (record_audit opened_by cash_session_opened session.id)
  pure session

abbrev pub missing_row : Error
missing_row = app_error not_found 404

-- `getSession`
unfoldable pub get_session : ℕ → Action BarDb NextoreCashSession
get_session id = do found ← gets (find_session id); or_raise missing_row found

-- `recordMovement`
unfoldable pub record_movement :
    ℕ → NextoreCashMovementType → Number → Text → ℕ → Action BarDb NextoreCashMovement
record_movement id type number reason created_by = do
  raise_if (is_blank reason) validation
  amount ← integer_from (pos 1) number
  session ← get_session id
  raise_if (not (is_open_session session)) validation
  movement ← from_update (add_movement id type amount reason created_by)
  modify (record_audit created_by cash_movement_recorded movement.id)
  pure movement

abbrev pub signed_movement : NextoreCashMovement → ℤ
signed_movement m = elim m.type [ money_in ↦ m.amount_cents | money_out ↦ negate m.amount_cents ]

-- `movementsNet`, the `reduce` over the movements
unfoldable pub movements_net : List NextoreCashMovement → ℤ
movements_net ms = sum_ℤ (map signed_movement ms)

-- What `getTheoreticalCashCents` computes of a session that it has found.
unfoldable pub theoretical_cash_of : NextoreCashSession → BarDb → ℤ
theoretical_cash_of session db =
    session.declared_opening_cents
    +ℤ get_cash_payments_total_cents session.id db
    +ℤ movements_net (list_movements session.id db)

-- `getTheoreticalCashCents`
unfoldable pub get_theoretical_cash_cents : ℕ → Action BarDb ℤ
unfolding get_session
get_theoretical_cash_cents id = do session ← get_session id; gets (theoretical_cash_of session)

-- The row that `closeSession` writes.
abbrev pub closing : ℕ → ℕ → ℤ → ℤ → Option Text → NextoreCashSession → NextoreCashSession
closing now closed_by declared theoretical justification s = record s {
  closed_by_user_id = some closed_by;
  closed_at = some now;
  declared_closing_cents = some declared;
  theoretical_closing_cents = some theoretical;
  variance_cents = some (declared -ℤ theoretical);
  variance_justification = justification;
}

-- The test that an unexplained difference is small.
abbrev pub is_unexplained : ℤ → Option Text → Bool
is_unexplained variance justification =
    ltb_ℤ variance_justification_threshold_cents (abs_ℤ variance) && is_missing justification

-- `closeSession` from the theoretical amount on
unfoldable pub close_counted : ℕ → ℕ → ℤ → Option Text → ℕ → ℤ → Action BarDb (Unit {0})
close_counted now id declared justification closed_by theoretical = do
  raise_if (is_unexplained (declared -ℤ theoretical) justification) validation
  modify (close_row id (closing now closed_by declared theoretical justification))
  modify (record_audit closed_by cash_session_closed id)

-- `closeSession` on a session that is open
unfoldable pub close_open : ℕ → ℕ → ℤ → Option Text → ℕ → Action BarDb (Unit {0})
close_open now id declared justification closed_by = do
  theoretical ← get_theoretical_cash_cents id
  close_counted now id declared justification closed_by theoretical

-- `closeSession`
unfoldable pub close_cash_session : ℕ → ℕ → Number → Option Text → ℕ → Action BarDb (Unit {0})
close_cash_session now id number justification closed_by = do
  declared ← integer_from (pos 0) number
  session ← get_session id
  raise_if (not (is_open_session session)) validation
  close_open now id declared justification closed_by

-- `getPaymentsByMethod`
pub record PaymentsByMethod : Type 0 where
  pub cash_cents : ℤ
  pub card_cents : ℤ
  pub wallet_credit_cents : ℤ

unfoldable pub get_payments_by_method : ℕ → BarDb → PaymentsByMethod
get_payments_by_method id db = record {
  cash_cents = sum_payments (in_session id cash) db.payments;
  card_cents = sum_payments (in_session id card) db.payments;
  wallet_credit_cents = sum_payments (in_session id wallet_credit) db.payments;
}

-- `countReversalsForSession`
unfoldable pub count_reversals_for_session : ℕ → BarDb → ℕ
count_reversals_for_session id db =
    count_by (λ p. same_option p.cash_session_id (some id) && is_reversed p.status) db.payments

pub record SessionReport : Type 0 where
  pub session : NextoreCashSession
  pub payments_by_method : PaymentsByMethod
  pub movements : List NextoreCashMovement
  pub reversals_count : ℕ
  pub theoretical_cash_cents : ℤ

-- `theoreticalClosingCents ?? 0`
abbrev pub or_zero : Option ℤ → ℤ
or_zero none = pos 0
or_zero (some n) = n

-- `getSessionReport`
unfoldable pub get_session_report : ℕ → Action BarDb SessionReport
get_session_report id = do
  session ← get_session id
  theoretical ← gets (λ db.
      if is_open_session session
      then theoretical_cash_of session db
      else or_zero session.theoretical_closing_cents)
  gets (λ db. record {
    session = session;
    payments_by_method = get_payments_by_method id db;
    movements = list_movements id db;
    reversals_count = count_reversals_for_session id db;
    theoretical_cash_cents = theoretical;
  })
