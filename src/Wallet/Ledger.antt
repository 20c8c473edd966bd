-- ===== src/Wallet/Ledger.antt =====
-- The sums of the ledger, when rows are added to it.
use ardenne_padel_v.Prelude.{
  ◌==◌, if◌then◌else◌, Bool-cases, All, ℤ, pos, ◌<ℤ◌, int_laws, lt→ltb_ℤ, zero_+ℤ, ◌+ℤ◌, negate, ℕ,
  ◌≡◌, refl, sym, ap, ◌∙◌, inl, inr, Bool, true, ◌&&◌, some, List, [], ◌∷◌, ◌++◌, map,
}
use ardenne_padel_v.Wallet.Store.{
  WalletCreditOrigin, paid, bonus, admin_comp, WalletTransaction, WalletDb, amount_of,
  balance_affecting, has_origin, sum_where, affects, get_balance_total_cents, get_balance_by_origin,
  create_transactions,
}
use ardenne_padel_v.Wallet.Allocation.{Allocation, allocated_sum}
use ardenne_padel_v.Wallet.Allocation.Across.{allocated_to}
use ardenne_padel_v.Wallet.Service.{rows_of}

abbrev pub of_origin : ℕ → WalletCreditOrigin → WalletTransaction → Bool
of_origin account o t = affects account t && has_origin o t.credit_origin

pub sum_where-append :
    (p : WalletTransaction → Bool) (xs ys : List WalletTransaction)
    → sum_where p (xs ++ ys) ≡ sum_where p xs +ℤ sum_where p ys
unfolding sum_where
sum_where-append p [] ys = sym (zero_+ℤ (sum_where p ys))
sum_where-append p (x ∷ xs) ys = rw (sum_where-append p xs ys) (omega int_laws)

-- How the rows that are written for allocations enter the ledger: each belongs to the account,
-- counts in its balance, keeps the origin of its allocation, and has its amount, or the negative.
pub record IsRow (account : ℕ) (signed : ℤ → ℤ) (row : Allocation → WalletTransaction)
    : Type 0 where
  pub own : (b : Allocation) → (row b).wallet_account_id ≡ account
  pub counts : (b : Allocation) → balance_affecting (row b).type ≡ true
  pub amount : (b : Allocation) → (row b).amount_cents ≡ signed b.amount_cents
  pub kept : (b : Allocation) → (row b).credit_origin ≡ some b.origin

-- `signed` is a sign.
pub record IsSign (signed : ℤ → ℤ) : Type 0 where
  pub at_zero : signed (pos 0) ≡ pos 0
  pub at_sum : (x y : ℤ) → signed (x +ℤ y) ≡ signed x +ℤ signed y

pub negate-IsSign : IsSign negate
negate-IsSign = record { at_zero = omega int_laws; at_sum = λ x y. omega int_laws }

pub plus-IsSign : IsSign (λ x. x)
plus-IsSign = record { at_zero = refl; at_sum = λ x y. refl }

rows_of_positive :
    (row : Allocation → WalletTransaction) (bs : List Allocation)
    → All (λ b. pos 0 <ℤ b.amount_cents) bs
    → rows_of row bs ≡ map row bs
rows_of_positive row [] h = refl
rows_of_positive row (b ∷ bs) h =
    rw (lt→ltb_ℤ (pos 0) b.amount_cents h.0) (ap (λ ts. row b ∷ ts) (rows_of_positive row bs h.1))

module _ (account : ℕ) (signed : ℤ → ℤ) (row : Allocation → WalletTransaction)
    (sign : IsSign signed) (r : IsRow account signed row) (a : ℕ) where
  sum-map_row :
      (bs : List Allocation)
      → sum_where (affects a) (map row bs)
        ≡ (if account == a then signed (allocated_sum bs) else pos 0)
  unfolding sum_where
  sum-map_row [] = elim (Bool-cases (account == a)) [ inl e ↦ rw (e, sign.at_zero) | inr e ↦ rw e ]
  sum-map_row (b ∷ bs) = elim (Bool-cases (account == a)) [
    | inl e ↦
        rw (sum-map_row bs, r.own b, r.counts b, r.amount b, e) (sym (sign.at_sum b.amount_cents _))
    | inr e ↦ rw (sum-map_row bs, r.own b, r.counts b, r.amount b, e) (omega int_laws)
  ]

  sum-map_row_origin :
      (o : WalletCreditOrigin) (bs : List Allocation)
      → sum_where (of_origin a o) (map row bs)
        ≡ (if account == a then signed (allocated_to o bs) else pos 0)
  unfolding sum_where
  sum-map_row_origin o [] = elim (Bool-cases (account == a)) [
    | inl e ↦ rw (e, sign.at_zero)
    | inr e ↦ rw e
  ]
  sum-map_row_origin o (b ∷ bs) = elim (Bool-cases (account == a)) [
    | inl e ↦ elim (Bool-cases (has_origin o (some b.origin))) [
      | inl same ↦
          rw (sum-map_row_origin o bs, r.own b, r.counts b, r.amount b, r.kept b, e, same)
            (sym (sign.at_sum b.amount_cents _))
      | inr other ↦
          rw (sum-map_row_origin o bs, r.own b, r.counts b, r.amount b, r.kept b, e, other)
            (omega int_laws ∙ ap signed (sym (zero_+ℤ _)))
    ]
    | inr e ↦
        rw (sum-map_row_origin o bs, r.own b, r.counts b, r.amount b, r.kept b, e) (omega int_laws)
  ]

  -- The balance after such rows have been written.
  pub total_after :
      (bs : List Allocation) (db : WalletDb)
      → All (λ b. pos 0 <ℤ b.amount_cents) bs
      → get_balance_total_cents a (create_transactions (rows_of row bs) db)
        ≡ (if account == a then signed (allocated_sum bs) else pos 0)
          +ℤ get_balance_total_cents a db
  unfolding get_balance_total_cents
  total_after bs db h =
      rw (rows_of_positive row bs h, sum_where-append (affects a) (map row bs) db.transactions)
        (ap (λ x. x +ℤ sum_where (affects a) db.transactions) (sum-map_row bs))

  pub origin_after :
      (o : WalletCreditOrigin) (bs : List Allocation) (db : WalletDb)
      → All (λ b. pos 0 <ℤ b.amount_cents) bs
      → amount_of (get_balance_by_origin a (create_transactions (rows_of row bs) db)) o
        ≡ (if account == a then signed (allocated_to o bs) else pos 0)
          +ℤ amount_of (get_balance_by_origin a db) o
  unfolding get_balance_by_origin
  origin_after paid bs db h =
      rw
        (
          rows_of_positive row bs h,
          sum_where-append (of_origin a paid) (map row bs) db.transactions,
        )
        (ap (λ x. x +ℤ sum_where (of_origin a paid) db.transactions) (sum-map_row_origin paid bs))
  origin_after bonus bs db h =
      rw
        (
          rows_of_positive row bs h,
          sum_where-append (of_origin a bonus) (map row bs) db.transactions,
        )
        (ap (λ x. x +ℤ sum_where (of_origin a bonus) db.transactions) (sum-map_row_origin bonus bs))
  origin_after admin_comp bs db h =
      rw
        (
          rows_of_positive row bs h,
          sum_where-append (of_origin a admin_comp) (map row bs) db.transactions,
        )
        (ap (λ x. x +ℤ sum_where (of_origin a admin_comp) db.transactions)
          (sum-map_row_origin admin_comp bs))
