-- ===== src/Wallet/Refunds/Left.antt =====
-- What can still be refunded for a booking or for a bar account, read off the ledger, and how the
-- rows of a refund change it.
use ardenne_padel_v.Prelude.{
  ◌==◌, same_option, ℤ, pos, int_laws, zero_+ℤ, ◌+ℤ◌, ◌-ℤ◌, abs_ℤ, ℕ, ◌≡◌, refl, Bool, true, false,
  ◌&&◌, Option, none, some, List, [], ◌∷◌, ◌++◌, map, arith,
}
use ardenne_padel_v.Wallet.Store.{
  WalletCreditOrigin, paid, bonus, admin_comp, WalletTransactionType, debit_booking, refund_booking,
  debit_nextore_account, refund_nextore_account, WalletTransaction, WalletDb, Breakdown, is_type,
  has_origin, sum_where, sum_by_origin, get_debit_breakdown_for_booking,
  get_refunded_breakdown_for_booking, get_debit_breakdown_for_nextore_account,
  get_refunded_breakdown_for_nextore_account, create_transactions,
}
use ardenne_padel_v.Wallet.Allocation.{Allocation, allocated_sum}
use ardenne_padel_v.Wallet.Allocation.Across.{allocated_to, allocated_sum-by_origin}
use ardenne_padel_v.Wallet.Ledger.{sum_where-append}
use ardenne_padel_v.Wallet.Service.{minus}

-- What money was spent on
pub data Purpose : Type 0 where
  a_booking a_bar_account : ℕ → Purpose

-- The rows that spend money on a purpose, and those that give it back
abbrev is_booking_debit : WalletTransactionType → Bool
is_booking_debit debit_booking = true
is_booking_debit _ = false

abbrev is_booking_refund : WalletTransactionType → Bool
is_booking_refund refund_booking = true
is_booking_refund _ = false

abbrev is_bar_debit : WalletTransactionType → Bool
is_bar_debit debit_nextore_account = true
is_bar_debit _ = false

abbrev is_bar_refund : WalletTransactionType → Bool
is_bar_refund refund_nextore_account = true
is_bar_refund _ = false

abbrev is_for : ℕ → Option ℕ → Bool
is_for id none = false
is_for id (some n) = n == id

abbrev pub is_spent : Purpose → WalletTransaction → Bool
is_spent (a_booking id) t = is_booking_debit t.type && is_for id t.booking_id
is_spent (a_bar_account id) t = is_bar_debit t.type && is_for id t.nextore_account_id

abbrev pub is_given_back : Purpose → WalletTransaction → Bool
is_given_back (a_booking id) t = is_booking_refund t.type && is_for id t.booking_id
is_given_back (a_bar_account id) t = is_bar_refund t.type && is_for id t.nextore_account_id

-- The sum of the rows of an origin
abbrev sum_from : (WalletTransaction → Bool) → WalletCreditOrigin → List WalletTransaction → ℤ
sum_from p o ts = sum_where (λ t. p t && has_origin o t.credit_origin) ts

abbrev pub left_from : Purpose → WalletCreditOrigin → List WalletTransaction → ℤ
left_from purpose o ts =
    abs_ℤ (sum_from (is_spent purpose) o ts) -ℤ sum_from (is_given_back purpose) o ts

-- What was spent on a purpose and has not been given back, for each origin and in all
abbrev pub left_for : Purpose → WalletDb → Breakdown
left_for purpose db = record {
  paid_cents = left_from purpose paid db.transactions;
  bonus_cents = left_from purpose bonus db.transactions;
  admin_comp_cents = left_from purpose admin_comp db.transactions;
}

abbrev pub left_total : Purpose → WalletDb → ℤ
left_total purpose db =
    left_from purpose paid db.transactions
    +ℤ left_from purpose bonus db.transactions
    +ℤ left_from purpose admin_comp db.transactions

sum_where-same :
    (p q : WalletTransaction → Bool) (ts : List WalletTransaction)
    → ((t : WalletTransaction) → p t ≡ q t)
    → sum_where p ts ≡ sum_where q ts
unfolding sum_where
sum_where-same p q [] same = refl
sum_where-same p q (t ∷ ts) same = rw (same t, sum_where-same p q ts same) refl

same_for : (id : ℕ) (o : Option ℕ) → same_option o (some id) ≡ is_for id o
same_for id none = refl
same_for id (some n) = refl

and_swap : (a b : Bool) → (a && b) ≡ (b && a)
and_swap true true = refl
and_swap true false = refl
and_swap false true = refl
and_swap false false = refl

booking_debit_same : (ty : WalletTransactionType) → is_type ty debit_booking ≡ is_booking_debit ty
booking_debit_same ty = ground arith

booking_refund_same :
    (ty : WalletTransactionType) → is_type ty refund_booking ≡ is_booking_refund ty
booking_refund_same ty = ground arith

bar_debit_same : (ty : WalletTransactionType) → is_type ty debit_nextore_account ≡ is_bar_debit ty
bar_debit_same ty = ground arith

bar_refund_same :
    (ty : WalletTransactionType) → is_type ty refund_nextore_account ≡ is_bar_refund ty
bar_refund_same ty = ground arith

-- The rows of a refund, for the purpose that they name
pub record IsRefundRow (purpose : Purpose) (row : Allocation → WalletTransaction) : Type 0 where
  pub spends_nothing : (b : Allocation) → is_spent purpose (row b) ≡ false
  pub gives_back : (b : Allocation) → is_given_back purpose (row b) ≡ true
  pub amount : (b : Allocation) → (row b).amount_cents ≡ b.amount_cents
  pub kept : (b : Allocation) → (row b).credit_origin ≡ some b.origin

module _ (purpose : Purpose) (row : Allocation → WalletTransaction) (r : IsRefundRow purpose row)
    (o : WalletCreditOrigin) where
  spent_by_rows : (bs : List Allocation) → sum_from (is_spent purpose) o (map row bs) ≡ pos 0
  unfolding sum_where
  spent_by_rows [] = refl
  spent_by_rows (b ∷ bs) = rw (r.spends_nothing b, spent_by_rows bs) (omega int_laws)

  given_by_rows :
      (bs : List Allocation) → sum_from (is_given_back purpose) o (map row bs) ≡ allocated_to o bs
  unfolding sum_where
  given_by_rows [] = refl
  given_by_rows (b ∷ bs) = rw (r.gives_back b, r.kept b, r.amount b, given_by_rows bs) refl

  left_after :
      (bs : List Allocation) (ts : List WalletTransaction)
      → left_from purpose o (map row bs ++ ts) ≡ left_from purpose o ts -ℤ allocated_to o bs
  left_after bs ts =
      rw
        (
          sum_where-append (λ t. is_spent purpose t && has_origin o t.credit_origin) (map row bs)
              ts,
          sum_where-append (λ t. is_given_back purpose t && has_origin o t.credit_origin)
              (map row bs) ts,
          spent_by_rows bs,
          given_by_rows bs,
          zero_+ℤ (sum_from (is_spent purpose) o ts),
        )
        (omega int_laws)

pub left_total-refund :
    (purpose : Purpose) (row : Allocation → WalletTransaction) (bs : List Allocation)
    (db : WalletDb)
    → IsRefundRow purpose row
    → left_total purpose (create_transactions (map row bs) db)
      ≡ left_total purpose db -ℤ allocated_sum bs
left_total-refund purpose row bs db r =
    rw
      (
        left_after purpose row r paid bs db.transactions,
        left_after purpose row r bonus bs db.transactions,
        left_after purpose row r admin_comp bs db.transactions,
        allocated_sum-by_origin bs,
      )
      (omega int_laws)

-- The queries of the repository compute what is left.
left_same :
    (d r : WalletTransaction → Bool) (purpose : Purpose) (o : WalletCreditOrigin)
    (ts : List WalletTransaction)
    → ((t : WalletTransaction) → d t ≡ is_spent purpose t)
    → ((t : WalletTransaction) → r t ≡ is_given_back purpose t)
    → abs_ℤ (sum_from d o ts) -ℤ sum_from r o ts ≡ left_from purpose o ts
left_same d r purpose o ts same same' =
    rw
      (
        sum_where-same (λ t. d t && has_origin o t.credit_origin)
            (λ t. is_spent purpose t && has_origin o t.credit_origin) ts (λ t. rw (same t) refl),
        sum_where-same (λ t. r t && has_origin o t.credit_origin)
            (λ t. is_given_back purpose t && has_origin o t.credit_origin) ts
            (λ t. rw (same' t) refl),
      )
      refl

abbrev amounts : ℤ → ℤ → ℤ → Breakdown
amounts a b c = record { paid_cents = a; bonus_cents = b; admin_comp_cents = c }

breakdown_same : {a a' b b' c c' : ℤ} → a ≡ a' → b ≡ b' → c ≡ c' → amounts a b c ≡ amounts a' b' c'
breakdown_same e f g = rw (e, f, g) refl

pub left_for-booking :
    (id : ℕ) (db : WalletDb)
    → minus (get_debit_breakdown_for_booking id db) (get_refunded_breakdown_for_booking id db)
      ≡ left_for (a_booking id) db
unfolding get_debit_breakdown_for_booking get_refunded_breakdown_for_booking sum_by_origin
left_for-booking id db =
    let each : (o : WalletCreditOrigin)
        → abs_ℤ (
              sum_from (λ t. same_option t.booking_id (some id) && is_type t.type debit_booking) o
                db.transactions)
            -ℤ sum_from (λ t. same_option t.booking_id (some id) && is_type t.type refund_booking) o
                db.transactions
          ≡ left_from (a_booking id) o db.transactions =
      λ o.
        left_same (λ t. same_option t.booking_id (some id) && is_type t.type debit_booking)
          (λ t. same_option t.booking_id (some id) && is_type t.type refund_booking) (a_booking id)
          o db.transactions
          (λ t.
            rw (same_for id t.booking_id, booking_debit_same t.type)
              (and_swap (is_for id t.booking_id) (is_booking_debit t.type)))
          (λ t.
            rw (same_for id t.booking_id, booking_refund_same t.type)
              (and_swap (is_for id t.booking_id) (is_booking_refund t.type))) in
    breakdown_same (each paid) (each bonus) (each admin_comp)

pub left_for-bar_account :
    (id : ℕ) (db : WalletDb)
    → minus
        (get_debit_breakdown_for_nextore_account id db)
        (get_refunded_breakdown_for_nextore_account id db)
      ≡ left_for (a_bar_account id) db
unfolding get_debit_breakdown_for_nextore_account get_refunded_breakdown_for_nextore_account
    sum_by_origin
left_for-bar_account id db =
    let each : (o : WalletCreditOrigin)
        → abs_ℤ (
              sum_from
                (λ t.
                  same_option t.nextore_account_id (some id)
                  && is_type t.type debit_nextore_account)
                o db.transactions)
            -ℤ sum_from
                (λ t.
                  same_option t.nextore_account_id (some id)
                  && is_type t.type refund_nextore_account)
                o db.transactions
          ≡ left_from (a_bar_account id) o db.transactions =
      λ o.
        left_same
          (λ t. same_option t.nextore_account_id (some id) && is_type t.type debit_nextore_account)
          (λ t. same_option t.nextore_account_id (some id) && is_type t.type refund_nextore_account)
          (a_bar_account id) o db.transactions
          (λ t.
            rw (same_for id t.nextore_account_id, bar_debit_same t.type)
              (and_swap (is_for id t.nextore_account_id) (is_bar_debit t.type)))
          (λ t.
            rw (same_for id t.nextore_account_id, bar_refund_same t.type)
              (and_swap (is_for id t.nextore_account_id) (is_bar_refund t.type))) in
    breakdown_same (each paid) (each bonus) (each admin_comp)
