-- ===== src/Wallet/Credits.antt =====
-- Money that enters a wallet: `creditFromPackPurchase` and `creditAdmin`.
use Prim.Native.String.{String}
use ardenne_padel_v.Wallet.Service
use ardenne_padel_v.Prelude.{
  ◌==◌, ==_refl, ne→==_false, Bool-cases, All, ℤ, pos, ◌≤ℤ◌, ◌<ℤ◌, leb_ℤ, is_positive, int_laws,
  ltb_ℤ→lt, ltb_ℤ→ge, leb_ℤ→le, leb_ℤ→gt, lt→ltb_ℤ, -ℤ_zero, +ℤ_zero, zero_+ℤ, ◌+ℤ◌, negate,
  validation_failed, app_error, ok, err, integer, ℕ, ◌≡◌, refl, sym, ◌∙◌, subst, ◌⊎◌, inl, inr,
  some, List, [], ◌∷◌, arith,
}
use ardenne_padel_v.Prelude.Action.{Action, ◌>>=◌, ◌>>◌, modify, if_then}
use ardenne_padel_v.Wallet.Store.{
  WalletCreditOrigin, paid, bonus, admin_comp, WalletTransactionType, credit_pack_purchase,
  credit_pack_bonus, WalletTransaction, WalletDb, has_origin, get_reserved_cents,
  create_transaction, create_transactions,
}
use ardenne_padel_v.Wallet.Allocation.{Allocation, allocated_sum}
use ardenne_padel_v.Wallet.Allocation.Across.{allocated_to}
use ardenne_padel_v.Wallet.Service.{bare_row, pack_row, credit_from_pack_purchase, rows_of}
use ardenne_padel_v.Wallet.Ledger.{IsRow, plus-IsSign, total_after}
use ardenne_padel_v.Wallet.Solvency.{
  IsSolvent, IsValid, Moves, Moves-IsSolvent, signed_breakdown, nothing, rows-Moves,
}
use ardenne_padel_v.Wallet.HoldChange.{Falls}
use ardenne_padel_v.Wallet.Effects.{Falls-refl, Falls-trans}

allocated_to-nonneg :
    (o : WalletCreditOrigin) (bs : List Allocation)
    → All (λ b. pos 0 <ℤ b.amount_cents) bs
    → pos 0 ≤ℤ allocated_to o bs
allocated_to-nonneg o [] h = omega arith
allocated_to-nonneg o (b ∷ bs) h = elim (Bool-cases (has_origin o (some b.origin))) [
  | inl e ↦ rw e (let rest = allocated_to-nonneg o bs h.1 in let x = h.0 in omega int_laws)
  | inr e ↦ rw e (let rest = allocated_to-nonneg o bs h.1 in omega int_laws)
]

-- Rows that each add a positive amount to an account.
module _ (account : ℕ) (row : Allocation → WalletTransaction) (r : IsRow account (λ x. x) row)
    (bs : List Allocation) (p : All (λ b. pos 0 <ℤ b.amount_cents) bs) (db : WalletDb)
    (v : IsValid db) where
  credited-IsSolvent : (a : ℕ) → IsSolvent a (create_transactions (rows_of row bs) db)
  unfolding get_reserved_cents
  credited-IsSolvent a =
      let m = rows-Moves account (λ x. x) row plus-IsSign r bs db p a in
      let n = v.solvent a in
      let np = allocated_to-nonneg paid bs p in
      let nb = allocated_to-nonneg bonus bs p in
      let na = allocated_to-nonneg admin_comp bs p in
      elim (Bool-cases (account == a)) [
        | inl e ↦
            let m' : Moves a db (create_transactions (rows_of row bs) db)
                (signed_breakdown (λ x. x) bs) =
              rw e at m in
            Moves-IsSolvent a db _ (signed_breakdown (λ x. x) bs) m' n
              (record {
                paid_nonneg = rw m'.paid_moves (omega (int_laws, n.origins));
                bonus_nonneg = rw m'.bonus_moves (omega (int_laws, n.origins));
                admin_comp_nonneg = rw m'.admin_comp_moves (omega (int_laws, n.origins));
              })
              (omega (int_laws, n.covered))
        | inr e ↦
            let m' : Moves a db (create_transactions (rows_of row bs) db) nothing = rw e at m in
            Moves-IsSolvent a db _ nothing m' n
              (record {
                paid_nonneg = rw m'.paid_moves (omega (int_laws, n.origins));
                bonus_nonneg = rw m'.bonus_moves (omega (int_laws, n.origins));
                admin_comp_nonneg = rw m'.admin_comp_moves (omega (int_laws, n.origins));
              })
              (omega (int_laws, n.covered))
      ]

  pub rows-credited :
      Falls account (negate (allocated_sum bs)) (pos 0) db (create_transactions (rows_of row bs) db)
  unfolding get_reserved_cents
  rows-credited = record {
    total_falls =
        total_after account (λ x. x) row plus-IsSign r account bs db p
        ∙ rw (==_refl account) (omega int_laws);
    reserve_falls = sym (-ℤ_zero _);
    others = λ a ne. (
      total_after account (λ x. x) row plus-IsSign r a bs db p
          ∙ rw (ne→==_false account a (λ e. ne (sym e))) (zero_+ℤ _),
      refl,
    );
    valid = record {
      solvent = credited-IsSolvent;
      holds_fresh = v.holds_fresh;
      holds_distinct = v.holds_distinct;
      holds_nonneg = v.holds_nonneg;
    };
  }

-- One row.
row-credited :
    (account : ℕ) (row : Allocation → WalletTransaction) (o : WalletCreditOrigin) (amount : ℤ)
    (db : WalletDb)
    → IsRow account (λ x. x) row
    → pos 0 <ℤ amount
    → IsValid db
    → Falls account
        (negate amount)
        (pos 0)
        db
        (create_transaction (row (record { origin = o; amount_cents = amount })) db)
row-credited account row o amount db r p v =
    let bs : List Allocation = record { origin = o; amount_cents = amount } ∷ [] in
    let all = rows-credited account row r bs (p, tt) db v in
    rw (lt→ltb_ℤ (pos 0) amount p, +ℤ_zero amount) at all

two_totals :
    {account : ℕ} {x y : ℤ} {db db₁ db₂ : WalletDb}
    → Falls account x (pos 0) db db₁
    → Falls account y (pos 0) db₁ db₂
    → Falls account (x +ℤ y) (pos 0) db db₂
two_totals {account} {x} {y} {db} {db₁} {db₂} f g =
    subst (λ r. Falls account (x +ℤ y) r db db₂) (+ℤ_zero (pos 0)) (Falls-trans f g)

-- `if (amount > 0)` around one row
credit_if_positive :
    (account : ℕ) (row : Allocation → WalletTransaction) (o : WalletCreditOrigin) (amount : ℤ)
    (db : WalletDb)
    → IsRow account (λ x. x) row
    → pos 0 ≤ℤ amount
    → IsValid db
    → let (r, db') =
        if_then
          (is_positive amount)
          (modify (create_transaction (row (record { origin = o; amount_cents = amount }))))
          db in
      (r ≡ ok tt) × Falls account (negate amount) (pos 0) db db'
credit_if_positive account row o amount db r p v = elim (Bool-cases (is_positive amount)) [
  | inl e ↦ rw e (refl, row-credited account row o amount db r (ltb_ℤ→lt (pos 0) amount e) v)
  | inr e ↦
      let low = ltb_ℤ→ge (pos 0) amount e in
      let zero_amount : negate amount ≡ pos 0 = omega int_laws in
      rw (e, zero_amount) (refl, Falls-refl account db v)
]

-- The second action runs in the store that the first one leaves.
>>-ok :
    (m k : Action WalletDb (Unit {0})) (db : WalletDb) → (m db).0 ≡ ok tt → (m >> k) db ≡ k (m db).1
>>-ok m k db h = rw (h, ◌>>=◌)

-- A pack purchase credits its paid part and its bonus, neither below zero, and nothing else: the
-- total of the account rises by both, no reserve and no other account changes, and the store stays
-- valid.
pub credit_from_pack_purchase_exact :
    (account purchase : ℕ) (paid_cents bonus_cents : ℤ) (db : WalletDb)
    → IsValid db
    → pos 0 ≤ℤ paid_cents
    → pos 0 ≤ℤ bonus_cents
    → let (r, db') =
        credit_from_pack_purchase account purchase (integer paid_cents) (integer bonus_cents) db in
      (r ≡ ok tt) × Falls account (negate paid_cents +ℤ negate bonus_cents) (pos 0) db db'
unfolding credit_from_pack_purchase
credit_from_pack_purchase_exact account purchase paid_cents bonus_cents db v p q =
    let row₁ : Allocation → WalletTransaction = λ b.
      record (pack_row account credit_pack_purchase b.amount_cents paid purchase) {
        credit_origin = some b.origin;
      } in
    let row₂ : Allocation → WalletTransaction = λ b.
      record (pack_row account credit_pack_bonus b.amount_cents bonus purchase) {
        credit_origin = some b.origin;
      } in
    let r₁ : IsRow account (λ x. x) row₁ = record {
      own = λ b. refl;
      counts = λ b. refl;
      amount = λ b. refl;
      kept = λ b. refl;
    } in
    let r₂ : IsRow account (λ x. x) row₂ = record {
      own = λ b. refl;
      counts = λ b. refl;
      amount = λ b. refl;
      kept = λ b. refl;
    } in
    let first = credit_if_positive account row₁ paid paid_cents db r₁ p v in
    let second = credit_if_positive account row₂ bonus bonus_cents _ r₂ q first.1.valid in
    let write₁ : Action WalletDb (Unit {0}) = if_then (is_positive paid_cents) (
      modify
        (create_transaction (pack_row account credit_pack_purchase paid_cents paid purchase))) in
    let write₂ : Action WalletDb (Unit {0}) = if_then (is_positive bonus_cents) (
      modify
        (create_transaction (pack_row account credit_pack_bonus bonus_cents bonus purchase))) in
    subst
      (λ x. (x.0 ≡ ok tt) × Falls account (negate paid_cents +ℤ negate bonus_cents) (pos 0) db x.1)
      (sym (>>-ok write₁ write₂ db first.0)) (second.0, two_totals first.1 second.1)

-- An admin credit in a valid store is refused, with nothing written, unless its amount is positive;
-- else it is added to the account, and the store stays valid.
pub credit_admin_exact :
    (account : ℕ) (amount : ℤ) (created_by : ℕ) (reason : String) (db : WalletDb)
    → IsValid db
    → let (r, db') = Service.credit_admin account (integer amount) created_by reason db in
      ((amount ≤ℤ pos 0) × (r ≡ err (app_error validation_failed 422)) × (db' ≡ db))
      ⊎ ((pos 0 <ℤ amount) × (r ≡ ok tt) × Falls account (negate amount) (pos 0) db db')
unfolding Service.credit_admin
credit_admin_exact account amount created_by reason db v =
    elim (Bool-cases (leb_ℤ amount (pos 0))) [
      | inl low ↦ rw low (inl (leb_ℤ→le amount (pos 0) low, refl, refl))
      | inr high ↦
          let row : Allocation → WalletTransaction = λ b.
            record (bare_row account WalletTransactionType.credit_admin b.amount_cents) {
              credit_origin = some b.origin;
              created_by = some created_by;
              reference = some reason;
            } in
          let r : IsRow account (λ x. x) row = record {
            own = λ b. refl;
            counts = λ b. refl;
            amount = λ b. refl;
            kept = λ b. refl;
          } in
          let p = leb_ℤ→gt amount (pos 0) high in
          rw high (inr (p, refl, row-credited account row admin_comp amount db r p v))
    ]
