-- ===== src/Wallet/PartialRelease.antt =====
-- `createHold`, and `releaseHoldPartially`.
use ardenne_padel_v.Prelude.{
  ◌==◌, if◌then◌else◌, ==_iff, ==_refl, ne→==_false, Bool-cases, and_true, All-weaken, ℤ, pos, ◌≤ℤ◌,
  ◌<ℤ◌, leb_ℤ, ltb_ℤ, min_ℤ, int_laws, ltb_ℤ→lt, ltb_ℤ→ge, le→leb_ℤ, leb_ℤ→le, leb_ℤ→gt, -ℤ_zero,
  zero_+ℤ, ◌+ℤ◌, ◌-ℤ◌, negate, ok, err, integer, ℕ, suc, ◌<◌, ◌≡◌, refl, sym, subst, ◌≢◌, ◌⊎◌, inl,
  inr, true, some, arith,
}
use ardenne_padel_v.Wallet.Store.{
  WalletHold, WalletDb, is_active, sum_where, affects, get_balance_total_cents,
  get_balance_by_origin, sum_active, get_reserved_cents, create_hold_row, find_hold,
  find_hold_by_id, is_active_hold, can_reduce, reduce_hold_amount,
}
use ardenne_padel_v.Wallet.Service.{
  get_balance, insufficient, create_hold, release_part, release_hold_partially,
}
use ardenne_padel_v.Wallet.Solvency.{IsSolvent, IsValid}
use ardenne_padel_v.Wallet.Debits.{available}
use ardenne_padel_v.Wallet.HoldChange.{Falls, Falls-audit, hold_changed}
use ardenne_padel_v.Wallet.HoldTable.{weight, find_hold-id, update-touched}
use ardenne_padel_v.Wallet.Holds.{HoldOutcome, release_active, by_outcome}

-- A new hold that the available balance covers.
module _ (account booking : ℕ) (amount : ℤ) (db : WalletDb) (v : IsValid db) (p : pos 0 ≤ℤ amount)
    (enough : amount ≤ℤ available account db) where
  added-IsSolvent : (a : ℕ) → IsSolvent a (create_hold_row account booking amount db).1
  unfolding get_reserved_cents get_balance_total_cents get_balance_by_origin sum_active
  added-IsSolvent a = elim (Bool-cases (account == a)) [
    | inl e ↦
        let same : account ≡ a = (==_iff account a).0 e in
        let s = v.solvent a in
        record {
          origins = s.origins;
          summed = s.summed;
          covered = rw e (
              subst (λ x. amount +ℤ sum_active x db.holds ≤ℤ sum_where (affects x) db.transactions)
                same (omega int_laws));
        }
    | inr e ↦
        let s = v.solvent a in
        record {
          origins = s.origins;
          summed = s.summed;
          covered = rw e (let c = s.covered in omega int_laws);
        }
  ]

  hold_added :
      Falls account (pos 0) (negate amount) db (create_hold_row account booking amount db).1
  unfolding get_reserved_cents get_balance_total_cents sum_active
  hold_added = record {
    total_falls = sym (-ℤ_zero _);
    reserve_falls = rw (==_refl account) (omega int_laws);
    others = λ a ne. (refl, rw (ne→==_false account a (λ e. ne (sym e))) (zero_+ℤ _));
    valid = record {
      solvent = added-IsSolvent;
      holds_fresh = (
        omega arith,
        All-weaken (λ h. h.id < db.next_id) (λ h. h.id < suc db.next_id) db.holds
            (λ h lt. omega arith) v.holds_fresh,
      );
      holds_distinct = (
        All-weaken (λ h. h.id < db.next_id) (λ h. h.id ≢ db.next_id) db.holds
            (λ h lt e. omega arith) v.holds_fresh,
        v.holds_distinct,
      );
      holds_nonneg = (p, v.holds_nonneg);
    };
  }

-- In a valid store, a hold of an amount of zero or more that the available balance covers is written
-- as active, and raises the reserve of its account by the amount and nothing else; a larger one is
-- refused and nothing is written. A store that was valid stays valid.
pub create_hold_exact :
    (account booking : ℕ) (amount : ℤ) (db : WalletDb)
    → IsValid db
    → pos 0 ≤ℤ amount
    → let (r, db') = create_hold account booking (integer amount) db in
      ((amount ≤ℤ available account db)
        × (r ≡ ok (create_hold_row account booking amount db).0)
        × (find_hold_by_id db.next_id db' ≡ some (create_hold_row account booking amount db).0)
        × Falls account (pos 0) (negate amount) db db')
      ⊎ ((available account db <ℤ amount) × (r ≡ err insufficient) × (db' ≡ db))
unfolding create_hold get_balance
create_hold_exact account booking amount db v p =
    elim (Bool-cases (ltb_ℤ (available account db) amount)) [
      | inl lacking ↦ rw lacking (inr (ltb_ℤ→lt (available account db) amount lacking, refl, refl))
      | inr enough ↦
          let h = ltb_ℤ→ge (available account db) amount enough in
          rw enough (
            inl (
              h,
              refl,
              unfold find_hold in rw (==_refl db.next_id),
              Falls-audit _ _ refl (hold_added account booking amount db v p h),
            ))
    ]

abbrev pub reduced : ℤ → WalletHold → WalletHold
reduced amount h = record h { amount_cents = h.amount_cents -ℤ amount }

-- An active hold that is larger than what is released stays active with the rest.
module _ (id : ℕ) (amount : ℤ) (h : WalletHold) (db : WalletDb) (v : IsValid db)
    (p : pos 0 ≤ℤ amount) (found : find_hold_by_id id db ≡ some h)
    (live : is_active h.status ≡ true) (larger : amount ≤ℤ h.amount_cents) where
  selected : (k : WalletHold) → can_reduce id amount k ≡ true → k.id ≡ id
  selected k e =
      let (a, _) = and_true (is_active_hold id k) (leb_ℤ amount k.amount_cents) e in
      (==_iff k.id id).0 (and_true (k.id == id) (is_active k.status) a).0

  pub matches : can_reduce id amount h ≡ true
  matches =
      rw (find_hold-id id db.holds found, ==_refl id, live, le→leb_ℤ amount h.amount_cents larger)

  pub reduction_won : (reduce_hold_amount id amount db).0 ≡ true
  unfolding reduce_hold_amount
  reduction_won =
      rw
        (update-touched id (can_reduce id amount) (reduced amount) selected db.holds
          v.holds_distinct found matches).0

  weight-reduced :
      (a : ℕ)
      → weight a h
        ≡ weight a (reduced amount h) +ℤ (if h.wallet_account_id == a then amount else pos 0)
  weight-reduced a = elim (Bool-cases (h.wallet_account_id == a)) [
    | inl e ↦ rw (e, live) (omega int_laws)
    | inr e ↦ rw e (omega int_laws)
  ]

  hold_reduced : Falls h.wallet_account_id (pos 0) amount db (reduce_hold_amount id amount db).1
  unfolding reduce_hold_amount
  hold_reduced =
      hold_changed id (can_reduce id amount) (reduced amount) selected (λ k. refl) h db v found
        matches amount p
        (λ k e n.
          let (_, large) = and_true (is_active_hold id k) (leb_ℤ amount k.amount_cents) e in
          let le = leb_ℤ→le amount k.amount_cents large in omega int_laws)
        weight-reduced

pub partial_active :
    (now id : ℕ) (amount : ℤ) (h : WalletHold) (db : WalletDb)
    → IsValid db
    → pos 0 ≤ℤ amount
    → find_hold_by_id id db ≡ some h
    → is_active h.status ≡ true
    → ((release_hold_partially now id (integer amount) db).0 ≡ ok tt)
      × Falls h.wallet_account_id
          (pos 0)
          (min_ℤ h.amount_cents amount)
          db
          (release_hold_partially now id (integer amount) db).1
unfolding release_hold_partially release_part
partial_active now id amount h db v p found live = elim (Bool-cases (leb_ℤ h.amount_cents amount)) [
  | inl all ↦ rw (found, live, all) (release_active now id h db v found live)
  | inr part ↦
      let gt = leb_ℤ→gt h.amount_cents amount part in
      let le : amount ≤ℤ h.amount_cents = omega arith in
      rw (found, live, part, reduction_won id amount h db v p found live le)
        (refl, Falls-audit _ _ refl (hold_reduced id amount h db v p found live le))
]

-- `releaseHoldPartially` of an amount of zero or more, in a valid store, lifts from the reserve the
-- smaller of the amount and of an active hold's own amount, and no money; it throws on a missing
-- hold, and does nothing on one that was released or captured before.
pub release_hold_partially_outcome :
    (now id : ℕ) (amount : ℤ) (db : WalletDb)
    → IsValid db
    → pos 0 ≤ℤ amount
    → HoldOutcome
        (λ h. (pos 0, min_ℤ h.amount_cents amount))
        (find_hold_by_id id db)
        db
        (release_hold_partially now id (integer amount) db)
unfolding release_hold_partially
release_hold_partially_outcome now id amount db v p =
    by_outcome (λ h. (pos 0, min_ℤ h.amount_cents amount)) (find_hold_by_id id db) db
      (release_hold_partially now id (integer amount) db) (λ e. rw e) (λ h e off. rw (e, off))
      (λ h e on. partial_active now id amount h db v p e on)
