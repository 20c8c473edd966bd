-- ===== src/Bar/OneSession.antt =====
-- At most one session of the cash register is open.
use ardenne_padel_v.Prelude.{
  ◌==◌, Bool-cases, Option-cases, All, find_by, update_where, count_by, All-weaken, ℤ, pos, ltb_ℤ,
  Error, Result, ok, err, Number, integer, fraction, ℕ, suc, ◌≤◌, ◌<◌, ◌≡◌, refl, ◌≢◌, ◌⊎◌, inl,
  inr, none, some, List, [], ◌∷◌, arith,
}
use ardenne_padel_v.Bar.Store.{
  closed_session, NextoreCashSession, AuditAction, cash_session_opened, BarDb, record_audit,
  is_open_session, find_open_session, create_session, close_row,
}
use ardenne_padel_v.Bar.CashSession.{open_cash_session}
use ardenne_padel_v.Prelude.Action.{◌>>=◌}

abbrev pub open_count : BarDb → ℕ
open_count db = count_by is_open_session db.sessions

-- No two rows have the same id, and the next id is fresh.
abbrev pub IsDistinct : List NextoreCashSession → Type 0
IsDistinct [] = Unit
IsDistinct (s ∷ ss) = All (λ t. t.id ≢ s.id) ss × IsDistinct ss

pub record IsRegister (db : BarDb) : Type 0 where
  pub one_open : open_count db ≤ 1
  pub distinct : IsDistinct db.sessions
  pub fresh : All (λ s. s.id < db.next_id) db.sessions

none_open :
    (ss : List NextoreCashSession)
    → find_by is_open_session ss ≡ none
    → count_by is_open_session ss ≡ 0
none_open [] h = refl
none_open (s ∷ ss) h = elim (Bool-cases (is_open_session s)) [
  | inl e ↦ absurd (some_is_not_none s (rw e at h))
  | inr e ↦ rw (e, none_open ss (rw e at h)) refl
]
  where
    some_is_not_none : (s : NextoreCashSession) → ¬ (some s ≡ none)
    some_is_not_none s e = cc

close-count :
    (id : ℕ) (change : NextoreCashSession → NextoreCashSession) (ss : List NextoreCashSession)
    → count_by is_open_session
        (update_where (λ s. s.id == id) (λ s. record (change s) { status = closed_session }) ss)
      ≤ count_by is_open_session ss
close-count id change [] = omega arith
close-count id change (s ∷ ss) = elim (Bool-cases (s.id == id)) [
  | inl e ↦ rw e (let ih = close-count id change ss in omega arith)
  | inr e ↦ rw e (let ih = close-count id change ss in omega arith)
]

-- Rows keep their ids.
module _ (id : ℕ) (change : NextoreCashSession → NextoreCashSession)
    (same_id : (s : NextoreCashSession) → (change s).id ≡ s.id) where
  abbrev closed_rows : List NextoreCashSession → List NextoreCashSession
  closed_rows ss =
      update_where (λ s. s.id == id) (λ s. record (change s) { status = closed_session }) ss

  close-All {ℓ} :
      (P : ℕ → Type ℓ) (ss : List NextoreCashSession)
      → All (λ s. P s.id) ss
      → All (λ s. P s.id) (closed_rows ss)
  close-All P [] a = tt
  close-All P (s ∷ ss) a = elim (Bool-cases (s.id == id)) [
    | inl e ↦ rw (e, same_id s) (a.0, close-All P ss a.1)
    | inr e ↦ rw e (a.0, close-All P ss a.1)
  ]

  close-IsDistinct : (ss : List NextoreCashSession) → IsDistinct ss → IsDistinct (closed_rows ss)
  close-IsDistinct [] d = tt
  close-IsDistinct (s ∷ ss) d = elim (Bool-cases (s.id == id)) [
    | inl e ↦ rw (e, same_id s) (close-All (λ n. n ≢ s.id) ss d.0, close-IsDistinct ss d.1)
    | inr e ↦ rw e (close-All (λ n. n ≢ s.id) ss d.0, close-IsDistinct ss d.1)
  ]

  pub close_row-IsRegister : (db : BarDb) → IsRegister db → IsRegister (close_row id change db)
  unfolding close_row
  close_row-IsRegister db r = record {
    one_open = let ih = close-count id change db.sessions in omega (arith, r.one_open);
    distinct = close-IsDistinct db.sessions r.distinct;
    fresh = close-All (λ n. n < db.next_id) db.sessions r.fresh;
  }

create_session-IsRegister :
    (opened_by : ℕ) (declared : ℤ) (db : BarDb)
    → IsRegister db
    → find_open_session db ≡ none
    → IsRegister (create_session opened_by declared db).1
unfolding create_session find_open_session
create_session-IsRegister opened_by declared db r h = record {
  one_open = omega (arith, none_open db.sessions h);
  distinct = (
    All-weaken (λ s. s.id < db.next_id) (λ s. s.id ≢ db.next_id) db.sessions (λ s lt e. omega arith)
        r.fresh,
    r.distinct,
  );
  fresh = (
    omega arith,
    All-weaken (λ s. s.id < db.next_id) (λ s. s.id < suc db.next_id) db.sessions
        (λ s lt. omega arith) r.fresh,
  );
}

pub audit-IsRegister :
    (actor : ℕ) (action : AuditAction) (target : ℕ) (db : BarDb)
    → IsRegister db
    → IsRegister (record_audit actor action target db)
unfolding record_audit
audit-IsRegister actor action target db r = record {
  one_open = r.one_open;
  distinct = r.distinct;
  fresh = r.fresh;
}

-- A call throws and changes nothing.
abbrev pub Refused : {A : Type 0} → BarDb → Result A × BarDb → Type 0
Refused db (r, db') = ((e : Error) × (r ≡ err e)) × (db' ≡ db)

-- `openSession` either opens a session where none was open, and that session is then the open one,
-- or it throws and changes nothing. At most one session stays open.
pub open_cash_session_lem :
    (opened_by : ℕ) (number : Number) (db : BarDb)
    → IsRegister db
    → let (r, db') = open_cash_session opened_by number db in
      IsRegister db'
      × (((session : NextoreCashSession) × (r ≡ ok session)
            × (find_open_session db ≡ none)
            × (find_open_session db' ≡ some session))
          ⊎ Refused db (r, db'))
unfolding open_cash_session
open_cash_session_lem opened_by fraction db v = (v, inr ((_, refl), refl))
open_cash_session_lem opened_by (integer n) db v = elim (Bool-cases (ltb_ℤ n (pos 0))) [
  | inl low ↦ rw (low, ◌>>=◌) (v, inr ((_, refl), refl))
  | inr high ↦ elim (Option-cases (find_open_session db)) [
    | inr (s, busy) ↦ rw (high, busy, ◌>>=◌) (v, inr ((_, refl), refl))
    | inl idle ↦
        rw (high, idle, ◌>>=◌)
          (
            audit-IsRegister opened_by cash_session_opened _ _
                (create_session-IsRegister opened_by n db v idle),
            inl (_, refl, refl, unfold find_open_session create_session record_audit in refl),
          )
  ]
]
