-- ===== src/Wallet/Debits.antt =====
-- The direct debits of the wallet: `debitAdmin`, `debitForBooking` and `debitForNextoreAccount`.
use Prim.Native.String.{String}
use ardenne_padel_v.Prelude.{
  ◌==◌, ==_iff, ==_refl, ne→==_false, Bool-cases, ℤ, pos, pos_part, neg_part, ◌≤ℤ◌, ◌<ℤ◌, leb_ℤ,
  ltb_ℤ, int_laws, ltb_ℤ→lt, ltb_ℤ→ge, leb_ℤ→le, leb_ℤ→gt, lt→ltb_ℤ, ge→ltb_ℤ, zero_+ℤ, ◌+ℤ◌, ◌-ℤ◌,
  negate, validation_failed, app_error, Result, ok, err, integer, ℕ, ◌≡◌, refl, sym, ap, ◌∙◌, subst,
  ◌≢◌, ◌⊎◌, inl, inr, List, arith,
}
use ardenne_padel_v.Wallet.Store.{
  WalletTransaction, WalletDb, get_balance_total_cents, get_balance_by_origin, get_reserved_cents,
  create_transactions,
}
use ardenne_padel_v.Wallet.Allocation.{Allocation, breakdown_total}
use ardenne_padel_v.Wallet.Allocation.Across.{
  allocated_sum-by_origin, SpendsExactly, allocate_across_origins_exact,
}
use ardenne_padel_v.Wallet.Service.{
  get_balance, rows_of, insufficient, debit, adjustment_row, debit_admin, booking_debit_row,
  debit_for_booking, nextore_debit_row, debit_for_nextore_account,
}
use ardenne_padel_v.Wallet.Ledger.{IsRow, negate-IsSign, total_after}
use ardenne_padel_v.Wallet.Solvency.{
  IsSolvent, IsValid, reserved_nonneg, Moves, Moves-IsSolvent, signed_breakdown, nothing,
  rows-Moves,
}

abbrev pub available : ℕ → WalletDb → ℤ
available account db = get_balance_total_cents account db -ℤ get_reserved_cents account db

-- The effect of spending `amount` from an account: its total falls by the amount, no other total
-- and no reserve changes, and the store stays valid.
pub record Spent (account : ℕ) (amount : ℤ) (db db' : WalletDb) : Type 0 where
  pub falls : get_balance_total_cents account db' ≡ get_balance_total_cents account db -ℤ amount
  pub others : (a : ℕ) → a ≢ account → get_balance_total_cents a db' ≡ get_balance_total_cents a db
  pub reserves : (a : ℕ) → get_reserved_cents a db' ≡ get_reserved_cents a db
  pub valid : IsValid db'

module _ (account : ℕ) (amount : ℤ) (row : Allocation → WalletTransaction)
    (r : IsRow account negate row) (db : WalletDb) (v : IsValid db) (p : pos 0 ≤ℤ amount) where
  own-IsSolvent : IsSolvent account db
  own-IsSolvent = v.solvent account

  module _ (bs : List Allocation) (s : SpendsExactly amount (get_balance_by_origin account db) bs)
      (free : get_reserved_cents account db +ℤ amount ≤ℤ get_balance_total_cents account db) where
    own_after : IsSolvent account (create_transactions (rows_of row bs) db)
    unfolding get_reserved_cents
    own_after =
        let m = rows-Moves account negate row negate-IsSign r bs db s.rows_positive account in
        let m' : Moves account db (create_transactions (rows_of row bs) db)
            (signed_breakdown negate bs) =
          rw (==_refl account) at m in
        let n = v.solvent account in
        let parts = sym (allocated_sum-by_origin bs) ∙ s.spends in
        Moves-IsSolvent account db _ (signed_breakdown negate bs) m' n
          (record {
            paid_nonneg = rw m'.paid_moves (omega (int_laws, s.paid_within));
            bonus_nonneg = rw m'.bonus_moves (omega (int_laws, s.bonus_within));
            admin_comp_nonneg = rw m'.admin_comp_moves (omega (int_laws, s.admin_comp_within));
          })
          (omega (int_laws, ap pos_part parts, ap neg_part parts))

    after-IsSolvent : (a : ℕ) → IsSolvent a (create_transactions (rows_of row bs) db)
    unfolding get_reserved_cents
    after-IsSolvent a = elim (Bool-cases (account == a)) [
      | inl e ↦
          subst (λ x. IsSolvent x (create_transactions (rows_of row bs) db))
            ((==_iff account a).0 e) own_after
      | inr e ↦
          let m = rows-Moves account negate row negate-IsSign r bs db s.rows_positive a in
          let m' : Moves a db (create_transactions (rows_of row bs) db) nothing = rw e at m in
          let n = v.solvent a in
          Moves-IsSolvent a db _ nothing m' n
            (record {
              paid_nonneg = rw m'.paid_moves (omega (int_laws, n.origins));
              bonus_nonneg = rw m'.bonus_moves (omega (int_laws, n.origins));
              admin_comp_nonneg = rw m'.admin_comp_moves (omega (int_laws, n.origins));
            })
            (omega (int_laws, n.covered))
    ]

    -- Rows that spend exactly an amount that was not reserved.
    pub rows-Spent : Spent account amount db (create_transactions (rows_of row bs) db)
    unfolding get_reserved_cents
    rows-Spent = record {
      falls =
          total_after account negate row negate-IsSign r account bs db s.rows_positive
          ∙ rw (==_refl account, s.spends) (omega int_laws);
      others = λ a ne.
          total_after account negate row negate-IsSign r a bs db s.rows_positive
          ∙ rw (ne→==_false account a (λ e. ne (sym e))) (zero_+ℤ _);
      reserves = λ a. refl;
      valid = record {
        solvent = after-IsSolvent;
        holds_fresh = v.holds_fresh;
        holds_distinct = v.holds_distinct;
        holds_nonneg = v.holds_nonneg;
      };
    }

  -- The balance covers the amount: the debit goes through.
  pub debit_covered :
      amount ≤ℤ available account db
      → (bs : List Allocation) × (debit account amount row db
          ≡ (ok tt, create_transactions (rows_of row bs) db))
        × SpendsExactly amount (get_balance_by_origin account db) bs
        × Spent account amount db (create_transactions (rows_of row bs) db)
  unfolding debit get_balance
  debit_covered enough =
      let n = v.solvent account in
      let some_reserved = reserved_nonneg account db v in
      let covers : amount ≤ℤ breakdown_total (get_balance_by_origin account db) =
        rw (← n.summed) (omega int_laws) in
      let (bs, e, s) =
        allocate_across_origins_exact amount (get_balance_by_origin account db) n.origins p
          covers in
      (
        bs,
        rw (ge→ltb_ℤ (available account db) amount enough, e),
        s,
        rows-Spent bs s (omega int_laws),
      )

  -- It does not: the call throws and writes nothing.
  pub debit_refused :
      available account db <ℤ amount → debit account amount row db ≡ (err insufficient, db)
  unfolding debit get_balance
  debit_refused lacking = rw (lt→ltb_ℤ (available account db) amount lacking)

-- A debit spends exactly the amount when the available balance covers it, and otherwise throws and
-- leaves the store alone.
abbrev pub SpendsOrRefuses : ℕ → ℤ → WalletDb → Result (Unit {0}) × WalletDb → Type 0
SpendsOrRefuses account amount db (r, db') =
    ((amount ≤ℤ available account db) × (r ≡ ok tt) × Spent account amount db db')
    ⊎ ((available account db <ℤ amount) × (r ≡ err insufficient) × (db' ≡ db))

debit-SpendsOrRefuses :
    (account : ℕ) (amount : ℤ) (row : Allocation → WalletTransaction) (db : WalletDb)
    → IsRow account negate row
    → IsValid db
    → pos 0 ≤ℤ amount
    → SpendsOrRefuses account amount db (debit account amount row db)
debit-SpendsOrRefuses account amount row db r v p =
    elim (Bool-cases (ltb_ℤ (available account db) amount)) [
      | inl lacking ↦
          let h = ltb_ℤ→lt (available account db) amount lacking in
          rw (debit_refused account amount row r db v p h) (inr (h, refl, refl))
      | inr enough ↦
          let h = ltb_ℤ→ge (available account db) amount enough in
          let (bs, e, s, effect) = debit_covered account amount row r db v p h in
          rw e (inl (h, refl, effect))
    ]

-- In a valid store, the debits for a booking and for a bar account of an amount of zero or more
-- spend exactly that amount from the account when its available balance (total minus reserve)
-- covers it: the total falls by it, no other account and no reserve changes, and the store stays
-- valid. Otherwise they throw INSUFFICIENT_WALLET_BALANCE and write nothing.
pub direct_debits_exact :
    (account target : ℕ) (amount : ℤ) (db : WalletDb)
    → IsValid db
    → pos 0 ≤ℤ amount
    → SpendsOrRefuses account amount db (debit_for_booking account target (integer amount) db)
      × SpendsOrRefuses account amount db
          (debit_for_nextore_account account target (integer amount) db)
direct_debits_exact account target amount db v p = (
  unfold debit_for_booking in
      debit-SpendsOrRefuses account amount (booking_debit_row account target) db
        (record { own = λ b. refl; counts = λ b. refl; amount = λ b. refl; kept = λ b. refl }) v p,
  unfold debit_for_nextore_account in
      debit-SpendsOrRefuses account amount (nextore_debit_row account target) db
        (record { own = λ b. refl; counts = λ b. refl; amount = λ b. refl; kept = λ b. refl }) v p,
)

-- A debit by the back office of an amount of zero or less throws VALIDATION_FAILED and writes
-- nothing; a positive amount is spent exactly, or refused as a whole.
pub debit_admin_exact :
    (account created_by : ℕ) (reason : String) (amount : ℤ) (db : WalletDb)
    → IsValid db
    → let (r, db') = debit_admin account (integer amount) created_by reason db in
      ((amount ≤ℤ pos 0) × (r ≡ err (app_error validation_failed 422)) × (db' ≡ db))
      ⊎ ((pos 0 <ℤ amount) × SpendsOrRefuses account amount db (r, db'))
unfolding debit_admin
debit_admin_exact account created_by reason amount db v = elim (Bool-cases (leb_ℤ amount (pos 0))) [
  | inl low ↦ rw low (inl (leb_ℤ→le amount (pos 0) low, refl, refl))
  | inr high ↦
      let h = leb_ℤ→gt amount (pos 0) high in
      rw high (
        inr (
          h,
          debit-SpendsOrRefuses account amount (adjustment_row account created_by reason) db
              (record { own = λ b. refl; counts = λ b. refl; amount = λ b. refl; kept = λ b. refl })
              v (omega arith),
        ))
]
