-- ===== src/Bar/Accounts/Closed.antt =====
-- What `closeAccount` leaves (accounts.service.ts), where no two accounts have the same id.
use ardenne_padel_v.Prelude.Keyed.{
  find_by-update_where, find_by-found, IsKeyed, one_selected, nothing_selected,
}
use ardenne_padel_v.Prelude.{
  ◌==◌, ==_iff, ne→==_false, true≢false, Bool-cases, Option-cases, and_true, ℤ, pos, ◌==ℤ◌, ==ℤ_iff,
  Result, ok, ℕ, ◌+◌, ◌≡◌, refl, sym, ap, ◌∙◌, ◌≢◌, ◌⊎◌, inl, inr, Bool, true, false, not, ◌&&◌,
  none, some,
}
use ardenne_padel_v.Bar.Store.{closed_account, NextoreAccount, account_closed, BarDb, record_audit}
use ardenne_padel_v.Bar.Accounts.{
  find_nextore_account, has_version, update_with_version_check, get_due_total_cents, set_closed,
  close_account,
}
use ardenne_padel_v.Bar.OneSession.{Refused}
use ardenne_padel_v.Bar.Accounts.Versions.{
  IsStale, close-missing, close-owed, close-conflict, close-won, update-stales, due_paid,
}

abbrev pub account_key : NextoreAccount → ℕ
account_key a = a.id

module _ (now id expected closed_by : ℕ) (force : Bool) (db : BarDb) where
  module _ {a : NextoreAccount} (keyed : IsKeyed account_key db.accounts)
      (found : find_nextore_account id db ≡ some a) where
    selects : (x : NextoreAccount) → has_version id expected x ≡ true → x.id ≡ id
    selects x e = (==_iff x.id id).0 (and_true (x.id == id) (x.version == expected) e).0

    abbrev bumped : NextoreAccount → NextoreAccount
    bumped x = record (set_closed now x) { version = x.version + 1 }

    own_id : a.id ≡ id
    unfolding find_nextore_account
    own_id = (==_iff a.id id).0 (find_by-found (λ x. x.id == id) db.accounts found)

    hit : a.version ≡ expected → has_version id expected a ≡ true
    hit e = rw ((==_iff a.id id).1 own_id, (==_iff a.version expected).1 e)

    update-hit :
        a.version ≡ expected → (update_with_version_check id expected (set_closed now) db).0 ≡ true
    unfolding update_with_version_check find_nextore_account
    update-hit e = rw (
        one_selected account_key id (has_version id expected) bumped selects db.accounts keyed found
          (hit e))

    update-miss :
        a.version ≢ expected
        → update_with_version_check id expected (set_closed now) db ≡ (false, db)
    unfolding update_with_version_check find_nextore_account
    update-miss ne =
        let other : has_version id expected a ≡ false =
          rw ((==_iff a.id id).1 own_id) (ne→==_false a.version expected ne) in
        let (c, u) =
          nothing_selected account_key id (has_version id expected) bumped selects db.accounts keyed
            found other in
        rw (c, u)

    after :
        a.version ≡ expected
        → find_nextore_account id (
            record_audit closed_by account_closed id
              (update_with_version_check id expected (set_closed now) db).1)
          ≡ some (bumped a)
    unfolding find_nextore_account update_with_version_check record_audit
    after e =
        find_by-update_where (λ x. x.id == id) (has_version id expected) bumped db.accounts
          (λ x. refl) found
        ∙ rw (hit e)

-- What an account that `closeAccount` has closed has
abbrev pub ClosesAccount : ℕ → ℕ → ℕ → Bool → BarDb → Result (Unit {0}) × BarDb → Type 0
ClosesAccount now id expected force db (r, db') =
    (a : NextoreAccount) × (closed : NextoreAccount) × (r ≡ ok tt)
    × (find_nextore_account id db ≡ some a)
    × (a.version ≡ expected)
    × ((force ≡ true) ⊎ (get_due_total_cents id db ≡ pos 0))
    × (find_nextore_account id db' ≡ some closed)
    × (closed.status ≡ closed_account)
    × (closed.closed_at ≡ some now)
    × (closed.version ≡ expected + 1)
    × (closed.label ≡ a.label)
    × (closed.customer_id ≡ a.customer_id)
    × (closed.opened_by_user_id ≡ a.opened_by_user_id)
    × IsStale id expected db'

-- Why a closure is refused
abbrev pub IsNotPayable : ℕ → ℕ → Bool → BarDb → Type 0
IsNotPayable id expected force db =
    (find_nextore_account id db ≡ none)
    ⊎ ((force ≡ false) × (get_due_total_cents id db ≢ pos 0))
    ⊎ ((a : NextoreAccount) × (find_nextore_account id db ≡ some a) × (a.version ≢ expected))

due_unpaid :
    (force : Bool) (due : ℤ)
    → (not force && not (due ==ℤ pos 0)) ≡ true
    → (force ≡ false) × (due ≢ pos 0)
due_unpaid true due e = cc
due_unpaid false due e = (refl, λ z. true≢false (sym e ∙ ap not ((==ℤ_iff due (pos 0)).1 z)))

-- Where no two accounts have the same id, `closeAccount` either closes the account: it had the
-- expected version, and nothing was due or the call is forced; its row is CLOSED at this time with
-- the next version, and is otherwise what it was, and no row has the expected version any more. Or
-- it throws and changes nothing, since the account is missing, something is due and the call is not
-- forced, or the account has another version.
pub close_account_lem :
    (now id expected closed_by : ℕ) (force : Bool) (db : BarDb)
    → IsKeyed account_key db.accounts
    → let r = close_account now id expected closed_by force db in
      ClosesAccount now id expected force db r ⊎ (IsNotPayable id expected force db × Refused db r)
close_account_lem now id expected closed_by force db keyed =
    elim (Option-cases (find_nextore_account id db)) [
      | inl missing ↦
          rw (close-missing now id expected closed_by force db missing)
            (inr (inl missing, ((_, refl), refl)))
      | inr (a, found) ↦
          elim (Bool-cases (not force && not (get_due_total_cents id db ==ℤ pos 0))) [
            | inl owed ↦
                rw (close-owed now id expected closed_by force db found owed)
                  (inr (inr (inl (due_unpaid force _ owed)), ((_, refl), refl)))
            | inr paid ↦ elim (Bool-cases (a.version == expected)) [
              | inl same ↦
                  let e = (==_iff a.version expected).0 same in
                  let won = update-hit now id expected closed_by force db keyed found e in
                  rw (close-won now id expected closed_by force db found paid won) (
                    inl (
                      a,
                      record (set_closed now a) { version = a.version + 1 },
                      refl,
                      found,
                      e,
                      due_paid now id expected closed_by force db paid,
                      after now id expected closed_by force db keyed found e,
                      refl,
                      refl,
                      ap (λ v. v + 1) e,
                      refl,
                      refl,
                      refl,
                      update-stales now id expected closed_by force db,
                    ))
              | inr other ↦
                  let ne : a.version ≢ expected =
                    λ e. true≢false (sym ((==_iff a.version expected).1 e) ∙ other) in
                  let lost = update-miss now id expected closed_by force db keyed found ne in
                  rw (close-conflict now id expected closed_by force db found paid (rw lost))
                    (inr (inr (inr (a, found, ne)), ((_, refl), rw lost)))
            ]
          ]
    ]
