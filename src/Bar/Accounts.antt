-- ===== src/Bar/Accounts.antt =====
-- `NextoreAccountsService` (apps/api/src/modules/nextore/accounts.service.ts), method by method, with
-- the queries of accounts.repository.ts. A quantity times a price is rounded exactly, where the
-- source multiplies floating-point numbers. A version is a number that only grows.
pub mod Versions
pub mod Closed
use ardenne_padel_v.Prelude.{
  ◌==◌, is_some, filter_by, find_by, update_where, count_by, ℤ, pos, leb_ℤ, ◌==ℤ◌, sum_ℤ, ◌+ℤ◌,
  ◌-ℤ◌, ◌*ℤ◌, account_version_conflict, Error, app_error, Text, ℕ, suc, ◌+◌, Bool, true, false, not,
  ◌&&◌, Option, none, some, List, ◌∷◌, map,
}
use ardenne_padel_v.Prelude.Action.{
  Action, pure, gets, or_raise, from_update, ◌>>=◌, ◌>>◌, modify, raise_if, if_then,
}
use ardenne_padel_v.Money.{floor_div}
use ardenne_padel_v.Bar.Store.{
  NextoreAccountStatus, open_account, partially_paid, closed_account, NextoreAccount,
  NextoreParticipant, NextoreArticle, active_line, voided, NextoreSaleLine, account_opened,
  line_added, line_voided, account_closed, BarDb, record_audit, validation, is_blank, is_missing,
  is_recorded, sum_payments,
}
use ardenne_padel_v.Bar.CashSession.{missing_row}

-- `NextoreAccountsRepository.findById`
unfoldable pub find_nextore_account : ℕ → BarDb → Option NextoreAccount
find_nextore_account id db = find_by (λ a. a.id == id) db.accounts

-- `createAccount`
unfoldable pub create_account : Option ℕ → Option Text → ℕ → BarDb → NextoreAccount × BarDb
create_account customer label opened_by db =
    let account : NextoreAccount = record {
      id = db.next_id;
      status = open_account;
      label = label;
      customer_id = customer;
      opened_by_user_id = opened_by;
      closed_at = none;
      version = 0;
    } in
    (account, record db { accounts = account ∷ db.accounts; next_id = suc db.next_id })

abbrev pub has_version : ℕ → ℕ → NextoreAccount → Bool
has_version id version a = a.id == id && a.version == version

-- `updateWithVersionCheck`, the data of the update a function on the row
unfoldable pub update_with_version_check :
    ℕ → ℕ → (NextoreAccount → NextoreAccount) → BarDb → Bool × BarDb
update_with_version_check id expected change db = (
  count_by (has_version id expected) db.accounts == 1,
  record db {
    accounts =
        update_where (has_version id expected) (λ a. record (change a) { version = a.version + 1 })
          db.accounts;
  },
)

-- `openAccount`
unfoldable pub open_bar_account : Option ℕ → Option Text → ℕ → Action BarDb NextoreAccount
open_bar_account customer label opened_by = do
  raise_if (not (is_some customer) && is_missing label) validation
  account ← from_update (create_account customer label opened_by)
  modify (record_audit opened_by account_opened account.id)
  pure account

-- `getAccount`
unfoldable pub get_account : ℕ → Action BarDb NextoreAccount
get_account id = do found ← gets (find_nextore_account id); or_raise missing_row found

abbrev pub is_active_line : NextoreSaleLine → Bool
is_active_line l = elim l.status [ active_line ↦ true | voided ↦ false ]

-- `listActiveLines`
unfoldable pub list_active_lines : ℕ → BarDb → List NextoreSaleLine
list_active_lines account db = filter_by (λ l. l.account_id == account && is_active_line l) db.lines

-- `Math.round(Number(line.quantity) * line.unitPriceCentsAtSale)`
unfoldable pub line_cents : NextoreSaleLine → ℤ
line_cents l = floor_div (l.quantity *ℤ l.unit_price_cents_at_sale +ℤ pos 500) 1000

-- `getSalesTotalCents`
unfoldable pub get_sales_total_cents : ℕ → BarDb → ℤ
get_sales_total_cents account db = sum_ℤ (map line_cents (list_active_lines account db))

-- `getRecordedTotalCents` of payments.repository.ts
unfoldable pub get_recorded_total_cents : ℕ → BarDb → ℤ
get_recorded_total_cents account db =
    sum_payments (λ p. p.account_id == account && is_recorded p.status) db.payments

-- `getDueTotalCents`
unfoldable pub get_due_total_cents : ℕ → BarDb → ℤ
get_due_total_cents account db =
    get_sales_total_cents account db -ℤ get_recorded_total_cents account db

abbrev pub is_open_account : NextoreAccountStatus → Bool
is_open_account open_account = true
is_open_account _ = false

-- `status !== "OPEN" && status !== "PARTIALLY_PAID"`, negated
abbrev pub takes_money : NextoreAccountStatus → Bool
takes_money open_account = true
takes_money partially_paid = true
takes_money _ = false

abbrev pub ignored : Bool × BarDb → Unit {0} × BarDb
ignored (_, db) = (tt, db)

-- `markPartiallyPaidIfOpen` on the account that it has read
unfoldable pub mark_read_account : ℕ → NextoreAccount → Action BarDb (Unit {0})
mark_read_account id account = if_then (is_open_account account.status) (
    from_update (λ db. ignored (
      update_with_version_check id account.version (λ a. record a { status = partially_paid }) db)))

-- `markPartiallyPaidIfOpen`
unfoldable pub mark_partially_paid_if_open : ℕ → Action BarDb (Unit {0})
mark_partially_paid_if_open id = do account ← get_account id; mark_read_account id account

-- `findParticipantById`
unfoldable pub find_participant : ℕ → BarDb → Option NextoreParticipant
find_participant id db = find_by (λ p. p.id == id) db.participants

-- `NextoreAccountsRepository.addParticipant`
unfoldable pub create_participant : ℕ → Option ℕ → Option Text → BarDb → NextoreParticipant × BarDb
create_participant account customer name db =
    let participant : NextoreParticipant = record {
      id = db.next_id;
      account_id = account;
      customer_id = customer;
      display_name = name;
      left_at = none;
    } in
    (
      participant,
      record db { participants = participant ∷ db.participants; next_id = suc db.next_id },
    )

-- `addParticipant`
unfoldable pub add_participant : ℕ → Option ℕ → Option Text → Action BarDb NextoreParticipant
add_participant account customer name = do
  raise_if (not (is_some customer) && is_missing name) validation
  found ← get_account account
  from_update (create_participant account customer name)

-- `setParticipantLeft`
unfoldable pub set_participant_left : ℕ → ℕ → BarDb → BarDb
set_participant_left id now db = record db {
  participants =
      update_where (λ p. p.id == id) (λ p. record p { left_at = some now }) db.participants;
}

-- `removeParticipant`
unfoldable pub remove_participant : ℕ → ℕ → Action BarDb NextoreParticipant
remove_participant now id = do
  found ← gets (find_participant id)
  participant ← or_raise missing_row found
  if_then (not (is_some participant.left_at)) (modify (set_participant_left id now))
  after ← gets (find_participant id)
  or_raise missing_row after

-- `NextoreAccountsRepository.addLine`
unfoldable pub create_line : ℕ → NextoreArticle → Option ℕ → ℤ → ℕ → BarDb → NextoreSaleLine × BarDb
create_line account article participant quantity operator db =
    let line : NextoreSaleLine = record {
      id = db.next_id;
      account_id = account;
      article_id = article.id;
      participant_id = participant;
      quantity = quantity;
      unit_price_cents_at_sale = article.price_cents;
      operator_user_id = operator;
      status = active_line;
      void_reason = none;
      voided_by_user_id = none;
      voided_at = none;
    } in
    (line, record db { lines = line ∷ db.lines; next_id = suc db.next_id })

-- The checks of `addLine` on its participant
unfoldable pub check_participant : ℕ → Option ℕ → Action BarDb (Unit {0})
check_participant account none = pure tt
check_participant account (some id) = do
  found ← gets (find_participant id)
  participant ← or_raise missing_row found
  raise_if (not (participant.account_id == account)) missing_row
  raise_if (is_some participant.left_at) validation

-- `addLine`
unfoldable pub add_line : ℕ → ℕ → Option ℕ → ℤ → ℕ → Action BarDb NextoreSaleLine
add_line account_id article_id participant_id quantity operator = do
  raise_if (leb_ℤ quantity (pos 0)) validation
  account ← get_account account_id
  raise_if (not (takes_money account.status)) validation
  found ← gets (λ db. find_by (λ a. a.id == article_id) db.articles)
  article ← or_raise missing_row found
  raise_if (not article.active) missing_row
  check_participant account_id participant_id
  line ← from_update (create_line account_id article participant_id quantity operator)
  modify (record_audit operator line_added line.id)
  pure line

-- `NextoreAccountsRepository.voidLine`
unfoldable pub void_row : ℕ → ℕ → Text → ℕ → BarDb → BarDb
void_row now id reason voided_by db = record db {
  lines =
      update_where (λ l. l.id == id)
        (λ l. record l {
          status = voided;
          void_reason = some reason;
          voided_by_user_id = some voided_by;
          voided_at = some now;
        })
        db.lines;
}

unfoldable pub find_line : ℕ → BarDb → Option NextoreSaleLine
find_line id db = find_by (λ l. l.id == id) db.lines

-- `voidLine`
unfoldable pub void_line : ℕ → ℕ → Text → ℕ → Action BarDb (Unit {0})
void_line now id reason voided_by = do
  raise_if (is_blank reason) validation
  found ← gets (find_line id)
  line ← or_raise missing_row found
  if_then (is_active_line line)
      (modify (λ db. record_audit voided_by line_voided id (void_row now id reason voided_by db)))

abbrev pub version_conflict : Error
version_conflict = app_error account_version_conflict 409

abbrev pub set_closed : ℕ → NextoreAccount → NextoreAccount
set_closed now a = record a { status = closed_account; closed_at = some now }

-- `closeAccount`
unfoldable pub close_account : ℕ → ℕ → ℕ → ℕ → Bool → Action BarDb (Unit {0})
close_account now id expected closed_by force = do
  account ← get_account id
  due ← gets (get_due_total_cents id)
  raise_if (not force && not (due ==ℤ pos 0)) validation
  applied ← from_update (update_with_version_check id expected (set_closed now))
  raise_if (not applied) version_conflict
  modify (record_audit closed_by account_closed id)
