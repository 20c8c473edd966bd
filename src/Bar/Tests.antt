-- ===== src/Bar/Tests.antt =====
-- A concrete bar.
use Prim.Native.String.{String}
use ardenne_padel_v.Bar.Accounts.Closed.{ClosesAccount, IsNotPayable, close_account_lem}
use ardenne_padel_v.Bar.Closing.{ClosesSession, IsNotClosable, close_cash_session_lem}
use ardenne_padel_v.Money.{floor_div}
use ardenne_padel_v.Bar.EqualSplit.{
  EqualSplitShare, preview_equal_split, amounts_of, preview_equal_split_lem,
}
use ardenne_padel_v.Prelude.{
  length, pos, ◌≤ℤ◌, ◌<ℤ◌, sum_ℤ, ◌+ℤ◌, ◌-ℤ◌, ◌*ℤ◌, ok, err, integer, blank, filled, ◌≡◌, refl, ◌⊎◌,
  true, false, none, some, List, [], ◌∷◌, arith,
}
use ardenne_padel_v.Wallet.Store.{WalletDb}
use ardenne_padel_v.Bar.Store.{
  open_account, NextoreAccount, active_line, NextoreSaleLine, cash, pending, failed, reversed,
  NextorePayment, open_session, NextoreCashSession, money_out, BarDb, validation, find_open_session,
  sum_payments,
}
use ardenne_padel_v.Bar.CashSession.{open_cash_session, record_movement, close_cash_session}
use ardenne_padel_v.Bar.OneSession.{IsRegister, Refused, open_cash_session_lem}
use ardenne_padel_v.Bar.CashDrawer.{IsNoMovement, RecordsMovement, record_movement_lem}
use ardenne_padel_v.Bar.Accounts.{
  find_nextore_account, update_with_version_check, get_account, list_active_lines, line_cents,
  get_sales_total_cents, get_recorded_total_cents, get_due_total_cents, close_account,
}
use ardenne_padel_v.Bar.Accounts.Versions.{close_account_once}
use ardenne_padel_v.Bar.Payments.{RecordPaymentInput, find_payment, reverse_payment}
use ardenne_padel_v.Bar.Idempotent.{reverse_payment_guarded}

abbrev empty_wallet : WalletDb
empty_wallet = record { accounts = []; transactions = []; holds = []; next_id = 1 }

abbrev morning : NextoreCashSession
morning = record {
  id = 1;
  status = open_session;
  opened_by_user_id = 5;
  declared_opening_cents = pos 10000;
  closed_by_user_id = none;
  closed_at = none;
  declared_closing_cents = none;
  theoretical_closing_cents = none;
  variance_cents = none;
  variance_justification = none;
}

abbrev table_account : NextoreAccount
table_account = record {
  id = 2;
  status = open_account;
  label = some (filled "table 4");
  customer_id = none;
  opened_by_user_id = 5;
  closed_at = none;
  version = 0;
}

abbrev undone : NextorePayment
undone = record {
  id = 3;
  account_id = 2;
  participant_id = none;
  amount_cents = pos 450;
  method = cash;
  status = reversed;
  external_reference = none;
  cash_session_id = some 1;
  idempotency_key = 77;
  recorded_by_user_id = 5;
  reversed_by_user_id = some 5;
  reversed_at = some 9;
}

abbrev bar : BarDb
bar = record {
  accounts = table_account ∷ [];
  participants = [];
  articles = [];
  lines = [];
  payments = undone ∷ [];
  sessions = morning ∷ [];
  movements = [];
  audit = [];
  wallet = empty_wallet;
  next_id = 4;
}

abbrev closed_bar : BarDb
closed_bar = record bar { sessions = [] }

bar-IsRegister : IsRegister bar
bar-IsRegister = record { one_open = omega arith; distinct = (tt, tt); fresh = (omega arith, tt) }

closed_bar-IsRegister : IsRegister closed_bar
closed_bar-IsRegister = record { one_open = omega arith; distinct = tt; fresh = tt }

open_cash_session_lem_example :
    let (r, db') = open_cash_session 5 (integer (pos 10000)) closed_bar in
    IsRegister db'
    × (((session : NextoreCashSession) × (r ≡ ok session)
          × (find_open_session closed_bar ≡ none)
          × (find_open_session db' ≡ some session))
        ⊎ Refused closed_bar (r, db'))
open_cash_session_lem_example =
    open_cash_session_lem 5 (integer (pos 10000)) closed_bar closed_bar-IsRegister

close_cash_session_lem_example :
    let r = close_cash_session 20 1 (integer (pos 9900)) none 5 bar in
    IsRegister r.1
    × (ClosesSession 20 1 (integer (pos 9900)) none 5 bar r
        ⊎ (IsNotClosable 1 (integer (pos 9900)) none bar × Refused bar r))
close_cash_session_lem_example =
    close_cash_session_lem 20 1 (integer (pos 9900)) none 5 bar bar-IsRegister

record_movement_lem_example :
    let r = record_movement 1 money_out (integer (pos 2000)) (filled "bank") 5 bar in
    IsRegister r.1
    × (RecordsMovement 1 money_out (integer (pos 2000)) (filled "bank") 5 bar r
        ⊎ (IsNoMovement 1 (integer (pos 2000)) (filled "bank") bar × Refused bar r))
record_movement_lem_example =
    record_movement_lem 1 money_out (integer (pos 2000)) (filled "bank") 5 bar bar-IsRegister

close_account_lem_example :
    let r = close_account 20 2 0 5 false bar in
    ClosesAccount 20 2 0 false bar r ⊎ (IsNotPayable 2 0 false bar × Refused bar r)
close_account_lem_example = close_account_lem 20 2 0 5 false bar (tt, tt)

close_account_once_example :
    let db' = (close_account 20 2 0 5 false bar).1 in Refused db' (close_account 21 2 0 6 true db')
unfolding close_account get_account find_nextore_account get_due_total_cents get_sales_total_cents
    list_active_lines get_recorded_total_cents sum_payments update_with_version_check ◌-ℤ◌ ◌+ℤ◌
close_account_once_example = close_account_once 20 2 0 5 false bar (omega arith) refl 21 6 true

abbrev retry : RecordPaymentInput
retry = record {
  account_id = 2;
  participant_id = none;
  amount_cents = integer (pos 450);
  method = cash;
  external_reference = none;
  idempotency_key = 77;
  recorded_by_user_id = 5;
}

reverse_payment_guarded_example :
    let r = reverse_payment 20 3 (filled "twice") 5 bar in
    ((filled "twice" ≡ blank) × (r ≡ (err validation, bar)))
    ⊎ ((text : String) × (filled "twice" ≡ filled text)
        × (((reversed ≡ reversed) × (r ≡ (ok tt, bar)))
            ⊎ (((reversed ≡ pending) ⊎ (reversed ≡ failed)) × (r ≡ (err validation, bar)))))
unfolding find_payment
reverse_payment_guarded_example =
    reverse_payment_guarded 20 3 (filled "twice") 5 bar {p = undone} refl (λ e. cc)

abbrev beers : NextoreSaleLine
beers = record {
  id = 4;
  account_id = 2;
  article_id = 8;
  participant_id = none;
  quantity = pos 3000;
  unit_price_cents_at_sale = pos 450;
  operator_user_id = 5;
  status = active_line;
  void_reason = none;
  voided_by_user_id = none;
  voided_at = none;
}

abbrev busy_bar : BarDb
busy_bar = record bar { lines = beers ∷ [] }

busy_due : get_due_total_cents 2 busy_bar ≡ pos 1350
unfolding get_due_total_cents get_sales_total_cents list_active_lines line_cents
    get_recorded_total_cents sum_payments floor_div ◌-ℤ◌ ◌+ℤ◌ ◌*ℤ◌
busy_due = refl

preview_equal_split_lem_example :
    let (r, db') = preview_equal_split 2 (integer (pos 2)) busy_bar in
    (db' ≡ busy_bar)
    × (((pos 0 <ℤ get_due_total_cents 2 busy_bar)
          × (shares : List EqualSplitShare) × (r ≡ ok shares)
          × (length (amounts_of shares) ≡ 2)
          × (sum_ℤ (amounts_of shares) ≡ get_due_total_cents 2 busy_bar))
        ⊎ ((get_due_total_cents 2 busy_bar ≤ℤ pos 0) × (r ≡ err validation)))
preview_equal_split_lem_example = preview_equal_split_lem 2 1 busy_bar
