-- ===== src/Bar/Accounts/Versions.antt =====
-- The optimistic lock of an account.
use ardenne_padel_v.Prelude.{
  ◌==◌, true≢false, Bool-cases, Option-cases, update_where, count_by, pos, ◌==ℤ◌, ==ℤ_iff, ok, err,
  ℕ, ◌+◌, ◌≤◌, ◌≡◌, refl, ap, ◌⊎◌, inl, inr, Bool, true, false, not, ◌&&◌, none, some, List, [],
  ◌∷◌, arith,
}
use ardenne_padel_v.Bar.Store.{NextoreAccount, account_closed, BarDb, record_audit, validation}
use ardenne_padel_v.Bar.Accounts.{
  find_nextore_account, has_version, update_with_version_check, get_account, get_due_total_cents,
  version_conflict, set_closed, close_account,
}
use ardenne_padel_v.Prelude.Action.{◌>>=◌}
use ardenne_padel_v.Bar.CashSession.{missing_row}
use ardenne_padel_v.Bar.OneSession.{Refused}

-- Nobody is left who read this version of the account.
abbrev pub IsStale : ℕ → ℕ → BarDb → Type 0
IsStale id expected db = count_by (has_version id expected) db.accounts ≡ 0

count-bumped :
    (id expected : ℕ) (change : NextoreAccount → NextoreAccount)
    (same_id : (a : NextoreAccount) → (change a).id ≡ a.id) (rows : List NextoreAccount)
    → count_by (has_version id expected) (
        update_where
          (has_version id expected)
          (λ a. record (change a) { version = a.version + 1 })
          rows)
      ≡ 0
count-bumped id expected change same_id [] = refl
count-bumped id expected change same_id (a ∷ more) = elim (Bool-cases (has_version id expected a)) [
  | inl e ↦
      let moved : ((change a).id == id && a.version + 1 == expected) ≡ false = ground arith in
      rw (e, moved, count-bumped id expected change same_id more) refl
  | inr e ↦ rw (e, e, count-bumped id expected change same_id more) refl
]

update-stale :
    (p : NextoreAccount → Bool) (f : NextoreAccount → NextoreAccount) (rows : List NextoreAccount)
    → count_by p rows ≡ 0
    → update_where p f rows ≡ rows
update-stale p f [] h = refl
update-stale p f (a ∷ more) h = elim (Bool-cases (p a)) [
  | inl e ↦ absurd (one_is_not_zero (count_by p more) (rw e at h))
  | inr e ↦ rw e (ap (λ rest. a ∷ rest) (update-stale p f more (let h' = rw e at h in omega arith)))
]
  where
    one_is_not_zero : (n : ℕ) → ¬ (1 + n ≡ 0)
    one_is_not_zero n e = omega arith

module _ (now id expected closed_by : ℕ) (force : Bool) (db : BarDb) where
  pub close-missing :
      find_nextore_account id db ≡ none
      → close_account now id expected closed_by force db ≡ (err missing_row, db)
  unfolding close_account get_account
  close-missing missing = rw (◌>>=◌, missing)

  module _ {a : NextoreAccount} (found : find_nextore_account id db ≡ some a) where
    pub close-owed :
        (not force && not (get_due_total_cents id db ==ℤ pos 0)) ≡ true
        → close_account now id expected closed_by force db ≡ (err validation, db)
    unfolding close_account get_account
    close-owed owed = rw (◌>>=◌, found, owed)

    pub close-conflict :
        (not force && not (get_due_total_cents id db ==ℤ pos 0)) ≡ false
        → (update_with_version_check id expected (set_closed now) db).0 ≡ false
        → close_account now id expected closed_by force db
          ≡ (err version_conflict, (update_with_version_check id expected (set_closed now) db).1)
    unfolding close_account get_account
    close-conflict paid lost = rw (◌>>=◌, found, paid, lost)

    pub close-won :
        (not force && not (get_due_total_cents id db ==ℤ pos 0)) ≡ false
        → (update_with_version_check id expected (set_closed now) db).0 ≡ true
        → close_account now id expected closed_by force db ≡ (
          ok tt,
          record_audit closed_by account_closed id
              (update_with_version_check id expected (set_closed now) db).1,
        )
    unfolding close_account get_account
    close-won paid won = rw (◌>>=◌, found, paid, won)

  update-lost :
      (update_with_version_check id expected (set_closed now) db).0 ≡ false
      → count_by (has_version id expected) db.accounts ≤ 1
      → IsStale id expected db
  unfolding update_with_version_check
  update-lost lost unique = ground arith

  update-same :
      IsStale id expected db → (update_with_version_check id expected (set_closed now) db).1 ≡ db
  unfolding update_with_version_check
  update-same h =
      ap (λ rows. record db { accounts = rows })
        (update-stale (has_version id expected)
          (λ a. record (set_closed now a) { version = a.version + 1 }) db.accounts h)

  pub update-stales : IsStale id expected (
      record_audit closed_by account_closed id
        (update_with_version_check id expected (set_closed now) db).1)
  unfolding update_with_version_check record_audit
  update-stales = count-bumped id expected (set_closed now) (λ a. refl) db.accounts

  lost-stale :
      IsStale id expected db → (update_with_version_check id expected (set_closed now) db).0 ≡ false
  unfolding update_with_version_check
  lost-stale h = rw h refl

  pub due_paid :
      (not force && not (get_due_total_cents id db ==ℤ pos 0)) ≡ false
      → (force ≡ true) ⊎ (get_due_total_cents id db ≡ pos 0)
  due_paid h = elim (Bool-cases force) [
    | inl e ↦ inl e
    | inr e ↦ elim (Bool-cases (get_due_total_cents id db ==ℤ pos 0)) [
      | inl z ↦ inr ((==ℤ_iff (get_due_total_cents id db) (pos 0)).0 z)
      | inr z ↦ absurd (true≢false (rw (e, z) at h))
    ]
  ]

  -- A version that has been used closes nothing.
  stale-Refused :
      IsStale id expected db → Refused db (close_account now id expected closed_by force db)
  stale-Refused h = elim (Option-cases (find_nextore_account id db)) [
    | inl missing ↦ rw (close-missing missing) ((_, refl), refl)
    | inr (a, found) ↦ elim (Bool-cases (not force && not (get_due_total_cents id db ==ℤ pos 0))) [
      | inl owed ↦ rw (close-owed found owed) ((_, refl), refl)
      | inr paid ↦ rw (close-conflict found paid (lost-stale h)) ((_, refl), update-same h)
    ]
  ]

  -- With at most one row of this id and version
  close_account-outcome :
      count_by (has_version id expected) db.accounts ≤ 1
      → let (r, db') = close_account now id expected closed_by force db in
        ((r ≡ ok tt)
          × ((force ≡ true) ⊎ (get_due_total_cents id db ≡ pos 0))
          × IsStale id expected db')
        ⊎ Refused db (r, db')
  close_account-outcome unique = elim (Option-cases (find_nextore_account id db)) [
    | inl missing ↦ rw (close-missing missing) (inr ((_, refl), refl))
    | inr (a, found) ↦ elim (Bool-cases (not force && not (get_due_total_cents id db ==ℤ pos 0))) [
      | inl owed ↦ rw (close-owed found owed) (inr ((_, refl), refl))
      | inr paid ↦ elim (Bool-cases (update_with_version_check id expected (set_closed now) db).0) [
        | inl won ↦ rw (close-won found paid won) (inl (refl, due_paid paid, update-stales))
        | inr lost ↦
            rw (close-conflict found paid lost)
              (inr ((_, refl), update-same (update-lost lost unique)))
      ]
    ]
  ]

-- After a call of `closeAccount` with a version has succeeded, the next one with the same version
-- throws and changes nothing, whoever makes it and forced or not.
pub close_account_once :
    (now id expected closed_by : ℕ) (force : Bool) (db : BarDb)
    → count_by (has_version id expected) db.accounts ≤ 1
    → (close_account now id expected closed_by force db).0 ≡ ok tt
    → (later by_other : ℕ) (forced : Bool)
    → let db' = (close_account now id expected closed_by force db).1 in
      Refused db' (close_account later id expected by_other forced db')
close_account_once now id expected closed_by force db unique success later by_other forced =
    elim (close_account-outcome now id expected closed_by force db unique) [
      | inl (_, _, stale) ↦ stale-Refused later id expected by_other forced _ stale
      | inr ((e, thrown), _) ↦ absurd (cc (thrown, success))
    ]
