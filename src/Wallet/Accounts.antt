-- ===== src/Wallet/Accounts.antt =====
-- `ensureAccount` (wallet.service.ts): the account of a user is found or made, and no money moves.
use ardenne_padel_v.Wallet.Allocation.{Allocation, allocate_across_origins}
use ardenne_padel_v.Prelude.{
  ◌==◌, ==_iff, true≢false, Bool-cases, Option-cases, All, Among, All-weaken, ℤ, pos, ltb_ℤ,
  is_positive, -ℤ_zero, Result, ok, err, integer, ℕ, suc, ◌<◌, ◌≡◌, refl, sym, ap, ◌∙◌, ◌≢◌, ◌⊎◌,
  inl, inr, none, some, some-injective, List, [], ◌∷◌, arith,
}
use ardenne_padel_v.Wallet.Store.{
  WalletTransaction, WalletAccount, WalletDb, get_balance_total_cents, get_balance_by_origin,
  get_reserved_cents, create_transactions, find_account, ensure_account_row,
}
use ardenne_padel_v.Wallet.Service.{
  get_balance, ensure_account, credit_from_pack_purchase, rows_of, debit, booking_debit_row,
  debit_for_booking,
}
use ardenne_padel_v.Wallet.Solvency.{IsValid}
use ardenne_padel_v.Wallet.HoldChange.{Falls}
use ardenne_padel_v.Wallet.Effects.{Falls-refl}

find_account-user :
    (user : ℕ) (accounts : List WalletAccount) {a : WalletAccount}
    → find_account user accounts ≡ some a
    → a.user_id ≡ user
unfolding find_account
find_account-user user [] e = cc
find_account-user user (x ∷ xs) {a} e = elim (Bool-cases (x.user_id == user)) [
  | inl same ↦
      let here : x ≡ a = some-injective _ _ (rw same at e) in
      ap (λ (k : WalletAccount). k.user_id) (sym here) ∙ (==_iff x.user_id user).0 same
  | inr other ↦ find_account-user user xs (rw other at e)
]

find_account-Among :
    (user : ℕ) (accounts : List WalletAccount) {a : WalletAccount}
    → find_account user accounts ≡ some a
    → Among a accounts
unfolding find_account
find_account-Among user [] e = cc
find_account-Among user (x ∷ xs) {a} e = elim (Bool-cases (x.user_id == user)) [
  | inl same ↦ inl (some-injective _ _ (rw same at e))
  | inr other ↦ inr (find_account-Among user xs (rw other at e))
]

no_account :
    (user : ℕ) (accounts : List WalletAccount)
    → find_account user accounts ≡ none
    → All (λ (x : WalletAccount). x.user_id ≢ user) accounts
unfolding find_account
no_account user [] e = tt
no_account user (x ∷ xs) e = elim (Bool-cases (x.user_id == user)) [
  | inl same ↦ cc (let e' : some x ≡ none = rw same at e in e')
  | inr other ↦ (
    λ same. true≢false (sym ((==_iff x.user_id user).1 same) ∙ other),
    no_account user xs (rw other at e),
  )
]

-- The account is the user's in a store: one that was in the table, which then stays as it was, or,
-- where the user had none, a new one with a fresh id, which is then in the table.
abbrev pub IsAccountOf : ℕ → WalletAccount → WalletDb → List WalletAccount → Type 0
IsAccountOf user a db accounts =
    (a.user_id ≡ user)
    × ((Among a db.accounts × (accounts ≡ db.accounts))
        ⊎ (All (λ (x : WalletAccount). x.user_id ≢ user) db.accounts
            × (a.id ≡ db.next_id)
            × (accounts ≡ a ∷ db.accounts)))

-- A new account row changes no sum.
account_added :
    (row : WalletAccount) (account : ℕ) (db : WalletDb)
    → IsValid db
    → Falls account
        (pos 0)
        (pos 0)
        db
        (record db { accounts = row ∷ db.accounts; next_id = suc db.next_id })
unfolding get_balance_total_cents get_reserved_cents get_balance_by_origin
account_added row account db v = record {
  total_falls = sym (-ℤ_zero _);
  reserve_falls = sym (-ℤ_zero _);
  others = λ a ne. (refl, refl);
  valid = record {
    solvent = λ a.
        let s = v.solvent a in
        record { origins = s.origins; summed = s.summed; covered = s.covered };
    holds_fresh =
        All-weaken (λ h. h.id < db.next_id) (λ h. h.id < suc db.next_id) db.holds
          (λ h lt. omega arith) v.holds_fresh;
    holds_distinct = v.holds_distinct;
    holds_nonneg = v.holds_nonneg;
  };
}

account_found :
    (user : ℕ) (a : WalletAccount) (db : WalletDb)
    → find_account user db.accounts ≡ some a
    → ensure_account user db ≡ (ok a, db)
unfolding ensure_account ensure_account_row
account_found user a db e = rw (e, ensure_account_row)

abbrev new_account : ℕ → WalletDb → WalletAccount
new_account user db = record { id = db.next_id; user_id = user }

account_made :
    (user : ℕ) (db : WalletDb)
    → find_account user db.accounts ≡ none
    → ensure_account user db ≡ (
      ok (new_account user db),
      record db { accounts = new_account user db ∷ db.accounts; next_id = suc db.next_id },
    )
unfolding ensure_account ensure_account_row
account_made user db e = rw (e, ensure_account_row)

pub ensure_account-Falls :
    (user : ℕ) (db : WalletDb)
    → IsValid db
    → (a : WalletAccount) × IsAccountOf user a db (ensure_account user db).1.accounts
      × ((ensure_account user db).0 ≡ ok a)
      × ((account : ℕ) → Falls account (pos 0) (pos 0) db (ensure_account user db).1)
ensure_account-Falls user db v = elim (Option-cases (find_account user db.accounts)) [
  | inl missing ↦ rw (account_made user db missing) (
    new_account user db,
    (refl, inr (no_account user db.accounts missing, refl, refl)),
    refl,
    λ account. account_added (new_account user db) account db v,
  )
  | inr (a, found) ↦ rw (account_found user a db found) (
    a,
    (
      find_account-user user db.accounts found,
      inl (find_account-Among user db.accounts found, refl),
    ),
    refl,
    λ account. Falls-refl account db v,
  )
]

-- Debits and credits leave the accounts as they are.
pub debit-accounts :
    (account : ℕ) (amount : ℤ) (row : Allocation → WalletTransaction) (db : WalletDb)
    → (debit account amount row db).1.accounts ≡ db.accounts
unfolding debit
debit-accounts account amount row db =
    elim (Bool-cases (ltb_ℤ (get_balance account db).available_cents amount)) [
      | inl lacking ↦ rw lacking
      | inr enough ↦
          rw enough (by_split (allocate_across_origins amount (get_balance account db).by_origin))
    ]
  where
    by_split :
        (r : Result (List Allocation))
        → (elim r as (λ _. Result (Unit {0}) × WalletDb) [
          | ok bs ↦ (ok tt, create_transactions (rows_of row bs) db)
          | err e ↦ (err e, db)
        ]).1.accounts
          ≡ db.accounts
    by_split (ok bs) = refl
    by_split (err e) = refl

pub debit_for_booking-accounts :
    (account booking : ℕ) (amount : ℤ) (db : WalletDb)
    → (debit_for_booking account booking (integer amount) db).1.accounts ≡ db.accounts
unfolding debit_for_booking
debit_for_booking-accounts account booking amount db =
    debit-accounts account amount (booking_debit_row account booking) db

pub pack_credit-accounts :
    (account purchase : ℕ) (x y : ℤ) (db : WalletDb)
    → (credit_from_pack_purchase account purchase (integer x) (integer y) db).1.accounts
      ≡ db.accounts
unfolding credit_from_pack_purchase
pack_credit-accounts account purchase x y db = elim (Bool-cases (is_positive x)) [
  | inl a ↦ elim (Bool-cases (is_positive y)) [ inl b ↦ rw (a, b) | inr b ↦ rw (a, b) ]
  | inr a ↦ elim (Bool-cases (is_positive y)) [ inl b ↦ rw (a, b) | inr b ↦ rw (a, b) ]
]
