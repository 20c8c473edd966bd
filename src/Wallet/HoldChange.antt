-- ===== src/Wallet/HoldChange.antt =====
-- The effect of a change of one hold, and of an audit row, on the sums and the invariant.
use ardenne_padel_v.Prelude.{
  ◌==◌, if◌then◌else◌, ==_iff, ==_refl, ne→==_false, Bool-cases, and_true, All, update_where, ℤ,
  pos, pos_part, neg_part, ◌≤ℤ◌, int_laws, -ℤ_zero, zero_+ℤ, ◌+ℤ◌, ◌-ℤ◌, ℕ, ◌<◌, ◌≡◌, refl, sym, ap,
  ◌∙◌, subst, ◌≢◌, inl, inr, Bool, true, false, some, some-injective, List, [], ◌∷◌, arith,
}
use ardenne_padel_v.Wallet.Store.{
  paid, bonus, admin_comp, WalletTransaction, WalletHold, WalletDb, balance_affecting, is_active,
  sum_where, affects, get_balance_total_cents, get_balance_by_origin, sum_active,
  get_reserved_cents, create_transaction, find_hold, find_hold_by_id, is_active_hold,
  transition_hold,
}
use ardenne_padel_v.Wallet.Ledger.{of_origin}
use ardenne_padel_v.Wallet.Solvency.{IsValid}
use ardenne_padel_v.Wallet.HoldTable.{
  weight, find_hold-id, update-touched, update-refused, update-All, update-IsDistinct,
}

-- An audit row changes no sum.
module _ (t : WalletTransaction) (audit : balance_affecting t.type ≡ false) (db : WalletDb) where
  affects-audit : (a : ℕ) → affects a t ≡ false
  affects-audit a = elim (Bool-cases (t.wallet_account_id == a)) [
    | inl e ↦ rw (e, audit)
    | inr e ↦ rw e
  ]

  pub total-audit :
      (a : ℕ) → get_balance_total_cents a (create_transaction t db) ≡ get_balance_total_cents a db
  unfolding get_balance_total_cents sum_where
  total-audit a = rw (affects-audit a) (zero_+ℤ _)

  origin-audit :
      (a : ℕ) → get_balance_by_origin a (create_transaction t db) ≡ get_balance_by_origin a db
  unfolding get_balance_by_origin sum_where
  origin-audit a = rw (affects-audit a) λ i. record {
    paid_cents = zero_+ℤ (sum_where (of_origin a paid) db.transactions) i;
    bonus_cents = zero_+ℤ (sum_where (of_origin a bonus) db.transactions) i;
    admin_comp_cents = zero_+ℤ (sum_where (of_origin a admin_comp) db.transactions) i;
  }

  pub audit-IsValid : IsValid db → IsValid (create_transaction t db)
  unfolding get_reserved_cents
  audit-IsValid v = record {
    solvent = λ a.
        let s = v.solvent a in
        record {
          origins = rw (origin-audit a) s.origins;
          summed = rw (origin-audit a, total-audit a) s.summed;
          covered = rw (total-audit a) s.covered;
        };
    holds_fresh = v.holds_fresh;
    holds_distinct = v.holds_distinct;
    holds_nonneg = v.holds_nonneg;
  }

-- The effect of a step on the two sums of an account: the total and the reserve fall by what is
-- given, those of other accounts stay, and the store stays valid.
pub record Falls (account : ℕ) (total reserve : ℤ) (db db' : WalletDb) : Type 0 where
  pub total_falls :
      get_balance_total_cents account db' ≡ get_balance_total_cents account db -ℤ total
  pub reserve_falls : get_reserved_cents account db' ≡ get_reserved_cents account db -ℤ reserve
  pub others :
      (a : ℕ)
      → a ≢ account
      → (get_balance_total_cents a db' ≡ get_balance_total_cents a db)
        × (get_reserved_cents a db' ≡ get_reserved_cents a db)
  pub valid : IsValid db'

-- An audit row after a step leaves its effect as it is.
pub Falls-audit :
    {account : ℕ} {total reserve : ℤ} {db : WalletDb} (db' : WalletDb) (t : WalletTransaction)
    → balance_affecting t.type ≡ false
    → Falls account total reserve db db'
    → Falls account total reserve db (create_transaction t db')
unfolding get_reserved_cents
Falls-audit {account} db' t audit f = record {
  total_falls = total-audit t audit db' account ∙ f.total_falls;
  reserve_falls = f.reserve_falls;
  others = λ a ne. (total-audit t audit db' a ∙ (f.others a ne).0, (f.others a ne).1);
  valid = audit-IsValid t audit db' f.valid;
}

-- A condition on the one hold `h` with the id holds, and its row is changed so that it weighs `drop`
-- less.
module _ (id : ℕ) (p : WalletHold → Bool) (f : WalletHold → WalletHold)
    (selects : (k : WalletHold) → p k ≡ true → k.id ≡ id)
    (same_id : (k : WalletHold) → (f k).id ≡ k.id) (h : WalletHold) (db : WalletDb) (v : IsValid db)
    (found : find_hold_by_id id db ≡ some h) (holds : p h ≡ true) (drop : ℤ)
    (dropped : pos 0 ≤ℤ drop)
    (nonneg_kept : (k : WalletHold)
      → p k ≡ true
      → pos 0 ≤ℤ k.amount_cents
      → pos 0 ≤ℤ (f k).amount_cents)
    (weighs : (a : ℕ)
      → weight a h ≡ weight a (f h) +ℤ (if h.wallet_account_id == a then drop else pos 0)) where
  reserve_after :
      (a : ℕ)
      → sum_active a (update_where p f db.holds)
        ≡ sum_active a db.holds -ℤ (if h.wallet_account_id == a then drop else pos 0)
  reserve_after a =
      let (c, u) = update-touched id p f selects db.holds v.holds_distinct found holds in
      omega (
        int_laws,
        ap pos_part (u a),
        ap neg_part (u a),
        ap pos_part (weighs a),
        ap neg_part (weighs a),
      )

  change_lowers : (a : ℕ) → sum_active a (update_where p f db.holds) ≤ℤ sum_active a db.holds
  change_lowers a = elim (Bool-cases (h.wallet_account_id == a)) [
    | inl e ↦ rw (reserve_after a, e) (omega int_laws)
    | inr e ↦ rw (reserve_after a, e) (omega int_laws)
  ]

  pub hold_changed :
      Falls h.wallet_account_id (pos 0) drop db (record db { holds = update_where p f db.holds })
  unfolding get_reserved_cents get_balance_total_cents get_balance_by_origin
  hold_changed = record {
    total_falls = sym (-ℤ_zero _);
    reserve_falls = reserve_after h.wallet_account_id ∙ rw (==_refl h.wallet_account_id);
    others = λ a ne. (
      refl,
      reserve_after a ∙ rw (ne→==_false h.wallet_account_id a (λ e. ne (sym e))) (-ℤ_zero _),
    );
    valid = record {
      solvent = λ a.
          let s = v.solvent a in
          record {
            origins = s.origins;
            summed = s.summed;
            covered = let low = change_lowers a in let c = s.covered in omega arith;
          };
      holds_fresh =
          update-All id p f selects (λ k. k.id < db.next_id) db.holds
            (λ k _ fresh. rw (same_id k) fresh) v.holds_fresh;
      holds_distinct = update-IsDistinct id p f selects db.holds same_id v.holds_distinct;
      holds_nonneg =
          update-All id p f selects (λ k. pos 0 ≤ℤ k.amount_cents) db.holds nonneg_kept
            v.holds_nonneg;
    };
  }

pub found_nonneg :
    (id : ℕ) (hs : List WalletHold) {h : WalletHold}
    → All (λ k. pos 0 ≤ℤ k.amount_cents) hs
    → find_hold id hs ≡ some h
    → pos 0 ≤ℤ h.amount_cents
unfolding find_hold
found_nonneg id [] a e = cc
found_nonneg id (x ∷ xs) {h} a e = elim (Bool-cases (x.id == id)) [
  | inl same ↦
      let here : x ≡ h = some-injective _ _ (rw same at e) in
      subst (λ (k : WalletHold). pos 0 ≤ℤ k.amount_cents) here a.0
  | inr other ↦ found_nonneg id xs a.1 (rw other at e)
]

-- A change of status that ends an active hold.
module _ (id : ℕ) (f : WalletHold → WalletHold)
    (same : (k : WalletHold) → ((f k).id ≡ k.id) × ((f k).amount_cents ≡ k.amount_cents))
    (ends : (k : WalletHold) → is_active (f k).status ≡ false) (h : WalletHold) (db : WalletDb)
    (v : IsValid db) (found : find_hold_by_id id db ≡ some h)
    (live : is_active h.status ≡ true) where
  selected : (k : WalletHold) → is_active_hold id k ≡ true → k.id ≡ id
  selected k e = (==_iff k.id id).0 (and_true (k.id == id) (is_active k.status) e).0

  matches : is_active_hold id h ≡ true
  matches = rw (find_hold-id id db.holds found, ==_refl id, live)

  pub transition_won : (transition_hold id f db).0 ≡ true
  unfolding transition_hold
  transition_won =
      rw
        (update-touched id (is_active_hold id) f selected db.holds v.holds_distinct found matches).0

  ended_weight : (a : ℕ) → weight a (f h) ≡ pos 0
  ended_weight a = elim (Bool-cases ((f h).wallet_account_id == a)) [
    | inl e ↦ rw (e, ends h)
    | inr e ↦ rw e
  ]

  ends_weight :
      (a : ℕ)
      → weight a h ≡ weight a (f h) +ℤ (if h.wallet_account_id == a then h.amount_cents else pos 0)
  ends_weight a = elim (Bool-cases (h.wallet_account_id == a)) [
    | inl e ↦ rw (ended_weight a, e, live) (sym (zero_+ℤ _))
    | inr e ↦ rw (ended_weight a, e) (sym (zero_+ℤ _))
  ]

  pub ended : Falls h.wallet_account_id (pos 0) h.amount_cents db (transition_hold id f db).1
  unfolding transition_hold
  ended =
      hold_changed id (is_active_hold id) f selected (λ k. (same k).0) h db v found matches
        h.amount_cents (found_nonneg id db.holds v.holds_nonneg found) (λ k _ n. rw (same k).1 n)
        ends_weight

pub transition_lost :
    (id : ℕ) (f : WalletHold → WalletHold) (db : WalletDb) {h : WalletHold}
    → IsValid db
    → find_hold_by_id id db ≡ some h
    → is_active h.status ≡ false
    → transition_hold id f db ≡ (false, db)
unfolding transition_hold
transition_lost id f db {h} v found dead =
    let miss : is_active_hold id h ≡ false =
      rw (find_hold-id id db.holds found, ==_refl id, dead) in
    let (c, u) =
      update-refused id (is_active_hold id) f
        (λ k e. (==_iff k.id id).0 (and_true (k.id == id) (is_active k.status) e).0) db.holds
        v.holds_distinct found miss in
    rw (c, u)
