-- ===== src/Wallet/Store.antt =====
-- The wallet tables and apps/api/src/modules/wallet/wallet.repository.ts. Identifiers are numbers,
-- compared and never computed with; the identifier of a new row is the store's next one. The ids of
-- ledger rows and the columns that the services never read are left out.
use Prim.Native.String.{String}
use ardenne_padel_v.Prelude.{
  ◌==◌, if◌then◌else◌, same_option, update_where, count_by, ℤ, pos, leb_ℤ, ◌+ℤ◌, ◌-ℤ◌, abs_ℤ, ℕ,
  suc, Bool, true, false, ◌&&◌, Option, none, some, List, [], ◌∷◌, ◌++◌,
}

pub data WalletCreditOrigin : Type 0 where
  paid bonus admin_comp : WalletCreditOrigin

pub data WalletTransactionType : Type 0 where
  credit_pack_purchase credit_pack_bonus credit_admin debit_booking : WalletTransactionType
  refund_booking hold_created hold_released hold_captured adjustment : WalletTransactionType
  bonus_expiry debit_nextore_account refund_nextore_account : WalletTransactionType

pub record WalletTransaction : Type 0 where
  pub wallet_account_id : ℕ
  pub type : WalletTransactionType
  pub amount_cents : ℤ
  pub credit_origin : Option WalletCreditOrigin
  pub booking_id : Option ℕ
  pub credit_pack_purchase_id : Option ℕ
  pub wallet_hold_id : Option ℕ
  pub nextore_account_id : Option ℕ
  pub reference : Option String
  pub created_by : Option ℕ

pub data WalletHoldStatus : Type 0 where
  active released captured expired : WalletHoldStatus

pub record WalletHold : Type 0 where
  pub id : ℕ
  pub wallet_account_id : ℕ
  pub booking_id : Option ℕ
  pub amount_cents : ℤ
  pub status : WalletHoldStatus
  pub captured_at : Option ℕ
  pub released_at : Option ℕ

pub record WalletAccount : Type 0 where
  pub id : ℕ
  pub user_id : ℕ

-- The newest rows stand first.
pub record WalletDb : Type 0 where
  pub accounts : List WalletAccount
  pub transactions : List WalletTransaction
  pub holds : List WalletHold
  pub next_id : ℕ

-- An amount for each origin.
pub record Breakdown : Type 0 where
  pub paid_cents : ℤ
  pub bonus_cents : ℤ
  pub admin_comp_cents : ℤ

abbrev pub amount_of : Breakdown → WalletCreditOrigin → ℤ
amount_of b paid = b.paid_cents
amount_of b bonus = b.bonus_cents
amount_of b admin_comp = b.admin_comp_cents

-- `BALANCE_AFFECTING_TYPES.includes(type)`
abbrev pub balance_affecting : WalletTransactionType → Bool
balance_affecting hold_created = false
balance_affecting hold_released = false
balance_affecting hold_captured = false
balance_affecting _ = true

abbrev pub is_type : WalletTransactionType → WalletTransactionType → Bool
is_type debit_booking debit_booking = true
is_type refund_booking refund_booking = true
is_type debit_nextore_account debit_nextore_account = true
is_type refund_nextore_account refund_nextore_account = true
is_type _ _ = false

abbrev pub has_origin : WalletCreditOrigin → Option WalletCreditOrigin → Bool
has_origin paid (some paid) = true
has_origin bonus (some bonus) = true
has_origin admin_comp (some admin_comp) = true
has_origin _ _ = false

abbrev pub is_active : WalletHoldStatus → Bool
is_active active = true
is_active _ = false

-- `aggregate({ where, _sum: { amountCents: true } })`
unfoldable pub sum_where : (WalletTransaction → Bool) → List WalletTransaction → ℤ
sum_where p [] = pos 0
sum_where p (t ∷ ts) = (if p t then t.amount_cents else pos 0) +ℤ sum_where p ts

-- `groupBy({ by: ["creditOrigin"], where, _sum })`, the groups read into a record
unfoldable pub sum_by_origin : (WalletTransaction → Bool) → List WalletTransaction → Breakdown
sum_by_origin p ts = record {
  paid_cents = sum_where (λ t. p t && has_origin paid t.credit_origin) ts;
  bonus_cents = sum_where (λ t. p t && has_origin bonus t.credit_origin) ts;
  admin_comp_cents = sum_where (λ t. p t && has_origin admin_comp t.credit_origin) ts;
}

abbrev pub abs_breakdown : Breakdown → Breakdown
abs_breakdown b = record {
  paid_cents = abs_ℤ b.paid_cents;
  bonus_cents = abs_ℤ b.bonus_cents;
  admin_comp_cents = abs_ℤ b.admin_comp_cents;
}

abbrev pub affects : ℕ → WalletTransaction → Bool
affects account t = t.wallet_account_id == account && balance_affecting t.type

-- `getBalanceTotalCents`
unfoldable pub get_balance_total_cents : ℕ → WalletDb → ℤ
get_balance_total_cents account db = sum_where (affects account) db.transactions

-- `getBalanceByOrigin`
unfoldable pub get_balance_by_origin : ℕ → WalletDb → Breakdown
unfolding sum_by_origin
get_balance_by_origin account db = sum_by_origin (affects account) db.transactions

unfoldable pub sum_active : ℕ → List WalletHold → ℤ
sum_active account [] = pos 0
sum_active account (h ∷ hs) =
    (if h.wallet_account_id == account && is_active h.status then h.amount_cents else pos 0)
    +ℤ sum_active account hs

-- `getReservedCents`
unfoldable pub get_reserved_cents : ℕ → WalletDb → ℤ
get_reserved_cents account db = sum_active account db.holds

-- `getDebitBreakdownForBooking`, `getRefundedBreakdownForBooking` and the two for a bar account
unfoldable pub get_debit_breakdown_for_booking : ℕ → WalletDb → Breakdown
unfolding sum_by_origin
get_debit_breakdown_for_booking booking db = abs_breakdown (
    sum_by_origin (λ t. same_option t.booking_id (some booking) && is_type t.type debit_booking)
      db.transactions)

unfoldable pub get_refunded_breakdown_for_booking : ℕ → WalletDb → Breakdown
unfolding sum_by_origin
get_refunded_breakdown_for_booking booking db =
    sum_by_origin (λ t. same_option t.booking_id (some booking) && is_type t.type refund_booking)
      db.transactions

unfoldable pub get_debit_breakdown_for_nextore_account : ℕ → WalletDb → Breakdown
unfolding sum_by_origin
get_debit_breakdown_for_nextore_account bar db = abs_breakdown (
    sum_by_origin
      (λ t. same_option t.nextore_account_id (some bar) && is_type t.type debit_nextore_account)
      db.transactions)

unfoldable pub get_refunded_breakdown_for_nextore_account : ℕ → WalletDb → Breakdown
unfolding sum_by_origin
get_refunded_breakdown_for_nextore_account bar db =
    sum_by_origin
      (λ t. same_option t.nextore_account_id (some bar) && is_type t.type refund_nextore_account)
      db.transactions

-- `createTransaction` and `createTransactions`
abbrev pub create_transaction : WalletTransaction → WalletDb → WalletDb
create_transaction t db = record db { transactions = t ∷ db.transactions }

abbrev pub create_transactions : List WalletTransaction → WalletDb → WalletDb
create_transactions ts db = record db { transactions = ts ++ db.transactions }

-- `createHold`, which returns the new row
abbrev pub create_hold_row : ℕ → ℕ → ℤ → WalletDb → WalletHold × WalletDb
create_hold_row account booking amount db =
    let hold : WalletHold = record {
      id = db.next_id;
      wallet_account_id = account;
      booking_id = some booking;
      amount_cents = amount;
      status = active;
      captured_at = none;
      released_at = none;
    } in
    (hold, record db { holds = hold ∷ db.holds; next_id = suc db.next_id })

unfoldable pub find_hold : ℕ → List WalletHold → Option WalletHold
find_hold id [] = none
find_hold id (h ∷ hs) = let rest = find_hold id hs in if h.id == id then some h else rest

-- `findHoldById`
abbrev pub find_hold_by_id : ℕ → WalletDb → Option WalletHold
find_hold_by_id id db = find_hold id db.holds

unfoldable pub find_active_hold : ℕ → List WalletHold → Option WalletHold
find_active_hold booking [] = none
find_active_hold booking (h ∷ hs) =
    let rest = find_active_hold booking hs in
    if same_option h.booking_id (some booking) && is_active h.status then some h else rest

-- `findActiveHoldForBooking`
abbrev pub find_active_hold_for_booking : ℕ → WalletDb → Option WalletHold
find_active_hold_for_booking booking db = find_active_hold booking db.holds

abbrev pub is_active_hold : ℕ → WalletHold → Bool
is_active_hold id h = h.id == id && is_active h.status

-- `transitionHold`: the data of the update is a function on the row.
unfoldable pub transition_hold : ℕ → (WalletHold → WalletHold) → WalletDb → Bool × WalletDb
transition_hold id change db = (
  count_by (is_active_hold id) db.holds == 1,
  record db { holds = update_where (is_active_hold id) change db.holds },
)

abbrev pub can_reduce : ℕ → ℤ → WalletHold → Bool
can_reduce id amount h = is_active_hold id h && leb_ℤ amount h.amount_cents

-- `reduceHoldAmount`
unfoldable pub reduce_hold_amount : ℕ → ℤ → WalletDb → Bool × WalletDb
reduce_hold_amount id amount db = (
  count_by (can_reduce id amount) db.holds == 1,
  record db {
    holds =
        update_where (can_reduce id amount)
          (λ h. record h { amount_cents = h.amount_cents -ℤ amount }) db.holds;
  },
)

unfoldable pub find_account : ℕ → List WalletAccount → Option WalletAccount
find_account user [] = none
find_account user (a ∷ rest) =
    let found = find_account user rest in if a.user_id == user then some a else found

-- `ensureAccount`
unfoldable pub ensure_account_row : ℕ → WalletDb → WalletAccount × WalletDb
unfolding find_account
ensure_account_row user db = elim (find_account user db.accounts) [
  | some a ↦ (a, db)
  | none ↦
      let a : WalletAccount = record { id = db.next_id; user_id = user } in
      (a, record db { accounts = a ∷ db.accounts; next_id = suc db.next_id })
]
