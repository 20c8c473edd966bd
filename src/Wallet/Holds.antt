-- ===== src/Wallet/Holds.antt =====
-- The end of a hold: `releaseHold` and `captureHold`.
use ardenne_padel_v.Prelude.{
  Bool-cases, ℤ, pos, ◌≤ℤ◌, int_laws, -ℤ_zero, ◌-ℤ◌, Result, ok, err, ℕ, ◌≡◌, refl, ap, ◌∙◌, ◌⊎◌,
  inl, inr, true, false, Option, none, some,
}
use ardenne_padel_v.Wallet.Store.{
  hold_captured, released, captured, WalletHold, WalletDb, is_active, get_balance_by_origin,
  create_transaction, create_transactions, find_hold_by_id, transition_hold,
}
use ardenne_padel_v.Wallet.Allocation.{breakdown_total}
use ardenne_padel_v.Wallet.Allocation.Across.{allocate_across_origins_exact}
use ardenne_padel_v.Wallet.Service.{
  get_balance, rows_of, hold_row, missing_hold, release_hold, captured_row, spend_hold,
  capture_hold,
}
use ardenne_padel_v.Wallet.Solvency.{IsValid, reserved_nonneg}
use ardenne_padel_v.Wallet.Debits.{available, Spent, rows-Spent}
use ardenne_padel_v.Wallet.HoldChange.{
  Falls, Falls-audit, found_nonneg, transition_won, ended, transition_lost,
}

-- What a call on a hold does, by what it finds: with no such hold it throws NOT_FOUND; on a hold
-- that is no longer active it succeeds; in both cases nothing changes. On an active hold it
-- succeeds, and the account's total and reserve fall as given.
abbrev pub HoldOutcome :
    (WalletHold → ℤ × ℤ) → Option WalletHold → WalletDb → Result (Unit {0}) × WalletDb → Type 0
HoldOutcome falls none db (r, db') = (r ≡ err missing_hold) × (db' ≡ db)
HoldOutcome falls (some h) db (r, db') =
    (r ≡ ok tt)
    × (((is_active h.status ≡ false) × (db' ≡ db))
        ⊎ ((is_active h.status ≡ true) × Falls h.wallet_account_id (falls h).0 (falls h).1 db db'))

abbrev pub set_released : ℕ → WalletHold → WalletHold
set_released now h = record h { status = released; released_at = some now }

pub release_active :
    (now id : ℕ) (h : WalletHold) (db : WalletDb)
    → IsValid db
    → find_hold_by_id id db ≡ some h
    → is_active h.status ≡ true
    → ((release_hold now id db).0 ≡ ok tt)
      × Falls h.wallet_account_id (pos 0) h.amount_cents db (release_hold now id db).1
unfolding release_hold
release_active now id h db v found live =
    let won =
      transition_won id (set_released now) (λ k. (refl, refl)) (λ k. refl) h db v found live in
    let effect = ended id (set_released now) (λ k. (refl, refl)) (λ k. refl) h db v found live in
    rw (found, won) (refl, Falls-audit _ _ refl effect)

pub by_outcome :
    (falls : WalletHold → ℤ × ℤ) (found : Option WalletHold) (db : WalletDb)
    (act : Result (Unit {0}) × WalletDb)
    → (found ≡ none → act ≡ (err missing_hold, db))
    → ((h : WalletHold) → found ≡ some h → is_active h.status ≡ false → act ≡ (ok tt, db))
    → ((h : WalletHold)
        → found ≡ some h
        → is_active h.status ≡ true
        → (act.0 ≡ ok tt) × Falls h.wallet_account_id (falls h).0 (falls h).1 db act.1)
    → HoldOutcome falls found db act
by_outcome falls none db act missing dead live =
    let e = missing refl in (ap (λ x. x.0) e, ap (λ x. x.1) e)
by_outcome falls (some h) db act missing dead live = elim (Bool-cases (is_active h.status)) [
  | inl on ↦ let (r, effect) = live h refl on in (r, inr (on, effect))
  | inr off ↦ let e = dead h refl off in (ap (λ x. x.0) e, inl (off, ap (λ x. x.1) e))
]

-- `releaseHold` in a valid store lifts the reserve of an active hold and no money; it throws on a
-- missing hold, and does nothing on one that was released or captured before.
pub release_hold_outcome :
    (now id : ℕ) (db : WalletDb)
    → IsValid db
    → HoldOutcome (λ h. (pos 0, h.amount_cents)) (find_hold_by_id id db) db (release_hold now id db)
unfolding release_hold
release_hold_outcome now id db v =
    by_outcome (λ h. (pos 0, h.amount_cents)) (find_hold_by_id id db) db (release_hold now id db)
      (λ e. rw e) (λ h e off. rw (e, transition_lost id (set_released now) db v e off))
      (λ h e on. release_active now id h db v e on)

-- Spending a hold whose reserve has just been lifted.
spend_lifted :
    (h : WalletHold) (db : WalletDb)
    → IsValid db
    → pos 0 ≤ℤ h.amount_cents
    → h.amount_cents ≤ℤ available h.wallet_account_id db
    → (db' : WalletDb) × (spend_hold h db
        ≡ (ok tt, create_transaction (hold_row hold_captured h.amount_cents h) db'))
      × Spent h.wallet_account_id h.amount_cents db db'
unfolding spend_hold get_balance
spend_lifted h db v p enough =
    let account = h.wallet_account_id in
    let s = v.solvent account in
    let some_reserved = reserved_nonneg account db v in
    let covers : h.amount_cents ≤ℤ breakdown_total (get_balance_by_origin account db) =
      rw (← s.summed) (omega int_laws) in
    let (bs, e, exact) =
      allocate_across_origins_exact h.amount_cents (get_balance_by_origin account db) s.origins p
        covers in
    (
      create_transactions (rows_of (captured_row h) bs) db,
      rw e,
      rows-Spent account h.amount_cents (captured_row h)
          (record { own = λ b. refl; counts = λ b. refl; amount = λ b. refl; kept = λ b. refl }) db
          v p bs exact (omega int_laws),
    )

Spent-after-Falls :
    {account : ℕ} {amount : ℤ} {db db₁ db₂ : WalletDb}
    → Falls account (pos 0) amount db db₁
    → Spent account amount db₁ db₂
    → Falls account amount amount db db₂
Spent-after-Falls {account} {amount} f s = record {
  total_falls = s.falls ∙ ap (λ x. x -ℤ amount) (f.total_falls ∙ -ℤ_zero _);
  reserve_falls = s.reserves account ∙ f.reserve_falls;
  others = λ a ne. (s.others a ne ∙ (f.others a ne).0, s.reserves a ∙ (f.others a ne).1);
  valid = s.valid;
}

abbrev pub set_captured : ℕ → WalletHold → WalletHold
set_captured now h = record h { status = captured; captured_at = some now }

pub capture_active :
    (now id : ℕ) (h : WalletHold) (db : WalletDb)
    → IsValid db
    → find_hold_by_id id db ≡ some h
    → is_active h.status ≡ true
    → ((capture_hold now id db).0 ≡ ok tt)
      × Falls h.wallet_account_id h.amount_cents h.amount_cents db (capture_hold now id db).1
unfolding capture_hold
capture_active now id h db v found live =
    let won =
      transition_won id (set_captured now) (λ k. (refl, refl)) (λ k. refl) h db v found live in
    let lifted = ended id (set_captured now) (λ k. (refl, refl)) (λ k. refl) h db v found live in
    let c = (v.solvent h.wallet_account_id).covered in
    let t = lifted.total_falls in
    let r = lifted.reserve_falls in
    let (db', e, spent) =
      spend_lifted h (transition_hold id (set_captured now) db).1 lifted.valid
        (found_nonneg id db.holds v.holds_nonneg found) (rw (t, r) (omega int_laws)) in
    rw (found, won, e) (refl, Falls-audit _ _ refl (Spent-after-Falls lifted spent))

-- `captureHold` in a valid store never throws on a hold that exists: it spends exactly the amount of
-- an active hold and lifts its reserve, so that what is available stays the same, and does nothing
-- on one that was released or captured before.
pub capture_hold_outcome :
    (now id : ℕ) (db : WalletDb)
    → IsValid db
    → HoldOutcome
        (λ h. (h.amount_cents, h.amount_cents))
        (find_hold_by_id id db)
        db
        (capture_hold now id db)
unfolding capture_hold
capture_hold_outcome now id db v =
    by_outcome (λ h. (h.amount_cents, h.amount_cents)) (find_hold_by_id id db) db
      (capture_hold now id db) (λ e. rw e)
      (λ h e off. rw (e, transition_lost id (set_captured now) db v e off))
      (λ h e on. capture_active now id h db v e on)
