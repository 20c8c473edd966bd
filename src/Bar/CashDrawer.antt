-- ===== src/Bar/CashDrawer.antt =====
-- The money that should be in the drawer.
use Prim.Native.String.{String}
use ardenne_padel_v.Prelude.{
  ◌==◌, if◌then◌else◌, Bool-cases, Option-cases, All-weaken, ℤ, pos, ◌≤ℤ◌, ◌<ℤ◌, ltb_ℤ, int_laws,
  ltb_ℤ→lt, ltb_ℤ→ge, +ℤ_zero, ◌+ℤ◌, ◌-ℤ◌, Result, ok, err, Number, integer, fraction, Text, blank,
  filled, ℕ, suc, ◌<◌, ◌≡◌, refl, sym, ◌∙◌, ◌⊎◌, inl, inr, true, false, none, some, ◌∷◌, arith,
}
use ardenne_padel_v.Prelude.Action.{◌>>=◌}
use ardenne_padel_v.Bar.Store.{
  NextoreCashSession, NextoreCashMovementType, money_in, money_out, NextoreCashMovement,
  AuditAction, cash_movement_recorded, BarDb, record_audit, validation, is_blank, is_open_session,
  find_session, add_movement, list_movements, get_cash_payments_total_cents,
}
use ardenne_padel_v.Bar.CashSession.{
  missing_row, get_session, record_movement, movements_net, theoretical_cash_of,
}
use ardenne_padel_v.Bar.OneSession.{IsRegister, audit-IsRegister, Refused}

-- What a movement adds to the drawer: money in adds its amount, and money out takes it away.
abbrev pub drawer_change : NextoreCashMovementType → ℤ → ℤ
drawer_change money_in amount = amount
drawer_change money_out amount = pos 0 -ℤ amount

-- The same of one session, for the drawer of another one.
abbrev pub change_for : ℕ → ℕ → NextoreCashMovementType → ℤ → ℤ
change_for id other type amount = if id == other then drawer_change type amount else pos 0

-- The theoretical cash of every session, after a movement has been written.
theoretical-add_movement :
    (id : ℕ) (type : NextoreCashMovementType) (amount : ℤ) (reason : Text) (by_user : ℕ)
    (db : BarDb) (t : NextoreCashSession)
    → theoretical_cash_of t (add_movement id type amount reason by_user db).1
      ≡ theoretical_cash_of t db +ℤ change_for id t.id type amount
unfolding theoretical_cash_of get_cash_payments_total_cents list_movements add_movement
    movements_net
theoretical-add_movement id money_in amount reason by_user db t = elim (Bool-cases (id == t.id)) [
  | inl e ↦ rw e (omega int_laws)
  | inr e ↦ rw e (sym (+ℤ_zero _))
]
theoretical-add_movement id money_out amount reason by_user db t = elim (Bool-cases (id == t.id)) [
  | inl e ↦ rw e (omega int_laws)
  | inr e ↦ rw e (sym (+ℤ_zero _))
]

module _ (id : ℕ) (type : NextoreCashMovementType) (n : ℤ) (text : String) (by_user : ℕ)
    (db : BarDb) where
  move-low :
      ltb_ℤ n (pos 1) ≡ true
      → record_movement id type (integer n) (filled text) by_user db ≡ (err validation, db)
  unfolding record_movement
  move-low low = rw (low, ◌>>=◌)

  move-missing :
      ltb_ℤ n (pos 1) ≡ false
      → find_session id db ≡ none
      → record_movement id type (integer n) (filled text) by_user db ≡ (err missing_row, db)
  unfolding record_movement get_session
  move-missing high missing = rw (high, ◌>>=◌, missing)

  module _ {s : NextoreCashSession} (high : ltb_ℤ n (pos 1) ≡ false)
      (found : find_session id db ≡ some s) where
    move-shut :
        is_open_session s ≡ false
        → record_movement id type (integer n) (filled text) by_user db ≡ (err validation, db)
    unfolding record_movement get_session
    move-shut shut = rw (high, ◌>>=◌, found, shut)

    move-done :
        is_open_session s ≡ true
        → record_movement id type (integer n) (filled text) by_user db ≡ (
          ok (add_movement id type n (filled text) by_user db).0,
          record_audit by_user cash_movement_recorded
              (add_movement id type n (filled text) by_user db).0.id
              (add_movement id type n (filled text) by_user db).1,
        )
    unfolding record_movement get_session
    move-done on = rw (high, ◌>>=◌, found, on)

theoretical-audit :
    (actor : ℕ) (action : AuditAction) (target : ℕ) (db : BarDb) (t : NextoreCashSession)
    → theoretical_cash_of t (record_audit actor action target db) ≡ theoretical_cash_of t db
unfolding theoretical_cash_of get_cash_payments_total_cents list_movements record_audit
theoretical-audit actor action target db t = refl

add_movement-IsRegister :
    (id : ℕ) (type : NextoreCashMovementType) (amount : ℤ) (reason : Text) (by_user : ℕ)
    (db : BarDb)
    → IsRegister db
    → IsRegister (add_movement id type amount reason by_user db).1
unfolding add_movement
add_movement-IsRegister id type amount reason by_user db v = record {
  one_open = v.one_open;
  distinct = v.distinct;
  fresh =
      All-weaken (λ s. s.id < db.next_id) (λ s. s.id < suc db.next_id) db.sessions
        (λ s lt. omega arith) v.fresh;
}

-- Why a movement is refused: no reason, an amount that is no whole number of at least one cent, or
-- a session that is missing or closed
abbrev pub IsNoMovement : ℕ → Number → Text → BarDb → Type 0
IsNoMovement id number reason db =
    (reason ≡ blank)
    ⊎ (number ≡ fraction)
    ⊎ ((n : ℤ) × (number ≡ integer n) × (n <ℤ pos 1))
    ⊎ (find_session id db ≡ none)
    ⊎ ((s : NextoreCashSession) × (find_session id db ≡ some s) × (is_open_session s ≡ false))

-- What a movement that is written has: the request in its row, and a drawer that has changed by it
abbrev pub RecordsMovement :
    ℕ
    → NextoreCashMovementType
    → Number
    → Text
    → ℕ
    → BarDb
    → Result NextoreCashMovement × BarDb
    → Type 0
RecordsMovement id type number reason by_user db (r, db') =
    (m : NextoreCashMovement) × (s : NextoreCashSession) × (r ≡ ok m)
    × (is_blank reason ≡ false)
    × (number ≡ integer m.amount_cents)
    × (pos 1 ≤ℤ m.amount_cents)
    × (find_session id db ≡ some s)
    × (is_open_session s ≡ true)
    × (m.session_id ≡ id)
    × (m.type ≡ type)
    × (m.reason ≡ reason)
    × (m.created_by_user_id ≡ by_user)
    × (db'.movements ≡ m ∷ db.movements)
    × ((t : NextoreCashSession)
        → theoretical_cash_of t db'
          ≡ theoretical_cash_of t db +ℤ change_for id t.id type m.amount_cents)

-- `recordMovement` either writes one movement of the requested type, at least one cent and with a
-- reason, into a session that is open: the theoretical cash of that session rises by its amount if
-- it is money in and falls by it if it is money out, and that of no other session changes. Or it
-- throws and changes nothing, since there is no reason, the amount is no whole number of at least
-- one cent, or the session is missing or closed. At most one session stays open.
pub record_movement_lem :
    (id : ℕ) (type : NextoreCashMovementType) (number : Number) (reason : Text) (by_user : ℕ)
    (db : BarDb)
    → IsRegister db
    → let r = record_movement id type number reason by_user db in
      IsRegister r.1
      × (RecordsMovement id type number reason by_user db r
          ⊎ (IsNoMovement id number reason db × Refused db r))
record_movement_lem id type number blank by_user db v =
    unfold record_movement in (v, inr (inl refl, ((_, refl), refl)))
record_movement_lem id type fraction (filled text) by_user db v =
    unfold record_movement in (v, inr (inr (inl refl), ((_, refl), refl)))
record_movement_lem id type (integer n) (filled text) by_user db v =
    elim (Bool-cases (ltb_ℤ n (pos 1))) [
      | inl low ↦
          rw (move-low id type n text by_user db low)
            (v, inr (inr (inr (inl (n, refl, ltb_ℤ→lt n (pos 1) low))), ((_, refl), refl)))
      | inr high ↦ elim (Option-cases (find_session id db)) [
        | inl missing ↦
            rw (move-missing id type n text by_user db high missing)
              (v, inr (inr (inr (inr (inl missing))), ((_, refl), refl)))
        | inr (s, found) ↦ elim (Bool-cases (is_open_session s)) [
          | inr shut ↦
              rw (move-shut id type n text by_user db high found shut)
                (v, inr (inr (inr (inr (inr (s, found, shut)))), ((_, refl), refl)))
          | inl on ↦
              let (m, db₁) = add_movement id type n (filled text) by_user db in
              rw (move-done id type n text by_user db high found on) (
                audit-IsRegister by_user cash_movement_recorded m.id db₁
                    (add_movement-IsRegister id type n (filled text) by_user db v),
                inl (
                  m,
                  s,
                  refl,
                  refl,
                  unfold add_movement in refl,
                  unfold add_movement in ltb_ℤ→ge n (pos 1) high,
                  found,
                  on,
                  unfold add_movement in refl,
                  unfold add_movement in refl,
                  unfold add_movement in refl,
                  unfold add_movement in refl,
                  unfold add_movement record_audit in refl,
                  λ t.
                      theoretical-audit by_user cash_movement_recorded m.id db₁ t
                      ∙ theoretical-add_movement id type n (filled text) by_user db t
                      ∙ unfold add_movement in refl,
                ),
              )
        ]
      ]
    ]
