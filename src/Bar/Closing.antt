-- ===== src/Bar/Closing.antt =====
-- The closure of a session (cash-session.service.ts, `closeSession`).
use Prim.Native.String.{String}
use ardenne_padel_v.Prelude.{
  ◌==◌, true≢false, Bool-cases, Option-cases, and_true, find_by, update_where, ℤ, pos, negsuc, ◌≤ℤ◌,
  ◌<ℤ◌, ltb_ℤ, int_laws, ltb_ℤ→lt, ltb_ℤ→ge, ◌-ℤ◌, abs_ℤ, Result, ok, err, Number, integer,
  fraction, Text, blank, filled, ℕ, ◌≡◌, refl, ap, ◌⊎◌, inl, inr, Bool, true, false, Option, none,
  some, List, [], ◌∷◌,
}
use ardenne_padel_v.Bar.Store.{
  closed_session, NextoreCashSession, cash_session_closed, BarDb, record_audit, validation,
  is_missing, is_open_session, find_session, close_row,
}
use ardenne_padel_v.Bar.CashSession.{
  variance_justification_threshold_cents, missing_row, get_session, theoretical_cash_of,
  get_theoretical_cash_cents, closing, is_unexplained, close_counted, close_open,
  close_cash_session,
}
use ardenne_padel_v.Prelude.Action.{◌>>=◌}
use ardenne_padel_v.Bar.OneSession.{IsRegister, close_row-IsRegister, audit-IsRegister, Refused}

find-update :
    (id : ℕ) (f : NextoreCashSession → NextoreCashSession)
    (same_id : (s : NextoreCashSession) → (f s).id ≡ s.id) (ss : List NextoreCashSession)
    {s : NextoreCashSession}
    → find_by (λ t. t.id == id) ss ≡ some s
    → find_by (λ t. t.id == id) (update_where (λ t. t.id == id) f ss) ≡ some (f s)
find-update id f same_id [] h = absurd (cc h)
find-update id f same_id (t ∷ ss) {s} h = elim (Bool-cases (t.id == id)) [
  | inl e ↦
      let hit : ((f t).id == id) ≡ true = rw (same_id t) e in
      rw (e, hit) (ap (map_option f) (rw e at h))
  | inr e ↦ rw (e, e) (find-update id f same_id ss (rw e at h))
]
  where
    map_option :
        (NextoreCashSession → NextoreCashSession)
        → Option NextoreCashSession
        → Option NextoreCashSession
    map_option g none = none
    map_option g (some a) = some (g a)

close-fraction :
    (now id : ℕ) (justification : Option Text) (closed_by : ℕ) (db : BarDb)
    → close_cash_session now id fraction justification closed_by db ≡ (err validation, db)
unfolding close_cash_session
close-fraction now id justification closed_by db = refl

close-negative :
    (now id : ℕ) (n : ℤ) (justification : Option Text) (closed_by : ℕ) (db : BarDb)
    → ltb_ℤ n (pos 0) ≡ true
    → close_cash_session now id (integer n) justification closed_by db ≡ (err validation, db)
unfolding close_cash_session
close-negative now id n justification closed_by db low = rw (low, ◌>>=◌)

module _ (now id : ℕ) (n : ℤ) (justification : Option Text) (closed_by : ℕ) (db : BarDb)
    (high : ltb_ℤ n (pos 0) ≡ false) where
  close-missing :
      find_session id db ≡ none
      → close_cash_session now id (integer n) justification closed_by db ≡ (err missing_row, db)
  unfolding close_cash_session get_session
  close-missing missing = rw (high, ◌>>=◌, missing)

  module _ {s : NextoreCashSession} (found : find_session id db ≡ some s) where
    close-shut :
        is_open_session s ≡ false
        → close_cash_session now id (integer n) justification closed_by db ≡ (err validation, db)
    unfolding close_cash_session get_session
    close-shut shut = rw (high, ◌>>=◌, found, shut)

    counted :
        close_open now id n justification closed_by db
        ≡ close_counted now id n justification closed_by (theoretical_cash_of s db) db
    unfolding close_open get_theoretical_cash_cents get_session
    counted = rw (◌>>=◌, found, found)

    close-counted :
        is_open_session s ≡ true
        → close_cash_session now id (integer n) justification closed_by db
          ≡ close_counted now id n justification closed_by (theoretical_cash_of s db) db
    unfolding close_cash_session get_session
    close-counted on = rw (high, ◌>>=◌, found, on, counted)

    close-odd :
        is_unexplained (n -ℤ theoretical_cash_of s db) justification ≡ true
        → close_counted now id n justification closed_by (theoretical_cash_of s db) db
          ≡ (err validation, db)
    unfolding close_counted
    close-odd odd = rw odd

    close-fine :
        is_unexplained (n -ℤ theoretical_cash_of s db) justification ≡ false
        → close_counted now id n justification closed_by (theoretical_cash_of s db) db ≡ (
          ok tt,
          record_audit closed_by cash_session_closed id
              (close_row id (closing now closed_by n (theoretical_cash_of s db) justification) db),
        )
    unfolding close_counted
    close-fine fine = rw fine

-- A difference of at most 5.00 needs no justification, and any other one a text.
abbrev pub IsJustified : ℤ → Option Text → Type 0
IsJustified variance justification =
    ((negsuc 499 ≤ℤ variance) × (variance ≤ℤ pos 500))
    ⊎ ((text : String) × (justification ≡ some (filled text)))

abbrev pub IsUnjustified : ℤ → Option Text → Type 0
IsUnjustified variance justification =
    ((variance <ℤ negsuc 499) ⊎ (pos 500 <ℤ variance))
    × ((justification ≡ none) ⊎ (justification ≡ some blank))

no_text : (j : Option Text) → is_missing j ≡ true → (j ≡ none) ⊎ (j ≡ some blank)
no_text none e = inl refl
no_text (some blank) e = inr refl
no_text (some (filled text)) e = cc

a_text : (j : Option Text) → is_missing j ≡ false → (text : String) × (j ≡ some (filled text))
a_text none e = cc
a_text (some blank) e = cc
a_text (some (filled text)) e = (text, refl)

is_large : ℤ → Bool
is_large v = ltb_ℤ variance_justification_threshold_cents (abs_ℤ v)

large_cases : (v : ℤ) → is_large v ≡ true → (v <ℤ negsuc 499) ⊎ (pos 500 <ℤ v)
unfolding is_large abs_ℤ
large_cases (pos n) e = let h = ltb_ℤ→lt (pos 500) (abs_ℤ (pos n)) e in inr (omega int_laws)
large_cases (negsuc n) e = let h = ltb_ℤ→lt (pos 500) (abs_ℤ (negsuc n)) e in inl (omega int_laws)

small_bounds : (v : ℤ) → is_large v ≡ false → (negsuc 499 ≤ℤ v) × (v ≤ℤ pos 500)
unfolding is_large abs_ℤ
small_bounds (pos n) e =
    let h = ltb_ℤ→ge (pos 500) (abs_ℤ (pos n)) e in (omega int_laws, omega int_laws)
small_bounds (negsuc n) e =
    let h = ltb_ℤ→ge (pos 500) (abs_ℤ (negsuc n)) e in (omega int_laws, omega int_laws)

justified : (v : ℤ) (j : Option Text) → is_unexplained v j ≡ false → IsJustified v j
unfolding is_large
justified v j e = elim (Bool-cases (is_missing j)) [
  | inl m ↦ elim (Bool-cases (is_large v)) [
    | inl l ↦ absurd (true≢false (rw (l, m) at e))
    | inr l ↦ inl (small_bounds v l)
  ]
  | inr m ↦ inr (a_text j m)
]

unjustified : (v : ℤ) (j : Option Text) → is_unexplained v j ≡ true → IsUnjustified v j
unfolding is_large
unjustified v j e =
    let (l, m) = and_true (is_large v) (is_missing j) e in (large_cases v l, no_text j m)

-- What a session that `closeSession` has closed has: the counted, the theoretical and the difference
-- of both on its row, and what it had when it was opened
abbrev pub ClosesSession :
    ℕ → ℕ → Number → Option Text → ℕ → BarDb → Result (Unit {0}) × BarDb → Type 0
ClosesSession now id number justification closed_by db (r, db') =
    (declared : ℤ) × (s : NextoreCashSession) × (closed : NextoreCashSession) × (r ≡ ok tt)
    × (number ≡ integer declared)
    × (pos 0 ≤ℤ declared)
    × (find_session id db ≡ some s)
    × (is_open_session s ≡ true)
    × IsJustified (declared -ℤ theoretical_cash_of s db) justification
    × (find_session id db' ≡ some closed)
    × (closed.status ≡ closed_session)
    × (closed.declared_closing_cents ≡ some declared)
    × (closed.theoretical_closing_cents ≡ some (theoretical_cash_of s db))
    × (closed.variance_cents ≡ some (declared -ℤ theoretical_cash_of s db))
    × (closed.variance_justification ≡ justification)
    × (closed.closed_by_user_id ≡ some closed_by)
    × (closed.closed_at ≡ some now)
    × (closed.opened_by_user_id ≡ s.opened_by_user_id)
    × (closed.declared_opening_cents ≡ s.declared_opening_cents)

-- Why a closure is refused
abbrev pub IsNotClosable : ℕ → Number → Option Text → BarDb → Type 0
IsNotClosable id number justification db =
    (number ≡ fraction)
    ⊎ ((n : ℤ) × (number ≡ integer n) × (n <ℤ pos 0))
    ⊎ (find_session id db ≡ none)
    ⊎ ((s : NextoreCashSession) × (find_session id db ≡ some s) × (is_open_session s ≡ false))
    ⊎ ((n : ℤ) × (s : NextoreCashSession) × (number ≡ integer n)
        × (find_session id db ≡ some s)
        × IsUnjustified (n -ℤ theoretical_cash_of s db) justification)

-- `closeSession` either closes a session that was open: its row has the counted money, the
-- theoretical money and the first less the second, and a difference of more than 5.00 comes with a
-- justification. Or it throws and changes nothing, since the counted money is no whole number of zero
-- or more, the session is missing or closed, or a difference of more than 5.00 has no justification.
-- At most one session stays open.
pub close_cash_session_lem :
    (now id : ℕ) (number : Number) (justification : Option Text) (closed_by : ℕ) (db : BarDb)
    → IsRegister db
    → let r = close_cash_session now id number justification closed_by db in
      IsRegister r.1
      × (ClosesSession now id number justification closed_by db r
          ⊎ (IsNotClosable id number justification db × Refused db r))
close_cash_session_lem now id fraction justification closed_by db v =
    rw (close-fraction now id justification closed_by db) (v, inr (inl refl, ((_, refl), refl)))
close_cash_session_lem now id (integer n) justification closed_by db v =
    elim (Bool-cases (ltb_ℤ n (pos 0))) [
      | inl low ↦
          rw (close-negative now id n justification closed_by db low)
            (v, inr (inr (inl (n, refl, ltb_ℤ→lt n (pos 0) low)), ((_, refl), refl)))
      | inr high ↦ elim (Option-cases (find_session id db)) [
        | inl missing ↦
            rw (close-missing now id n justification closed_by db high missing)
              (v, inr (inr (inr (inl missing)), ((_, refl), refl)))
        | inr (s, found) ↦ elim (Bool-cases (is_open_session s)) [
          | inr shut ↦
              rw (close-shut now id n justification closed_by db high found shut)
                (v, inr (inr (inr (inr (inl (s, found, shut)))), ((_, refl), refl)))
          | inl on ↦
              elim (Bool-cases (is_unexplained (n -ℤ theoretical_cash_of s db) justification)) [
                | inl odd ↦
                    rw
                      (
                        close-counted now id n justification closed_by db high found on,
                        close-odd now id n justification closed_by db high found odd,
                      )
                      (
                        v,
                        inr (
                          inr (
                              inr (inr (inr (n, s, refl, found, unjustified _ justification odd)))),
                          ((_, refl), refl),
                        ),
                      )
                | inr fine ↦
                    let change = closing now closed_by n (theoretical_cash_of s db) justification in
                    let after : find_session id
                          (record_audit closed_by cash_session_closed id (close_row id change db))
                        ≡ some (record (change s) { status = closed_session }) =
                      unfold find_session close_row record_audit in
                      find-update id (λ t. record (change t) { status = closed_session })
                        (λ t. refl) db.sessions found in
                    rw
                      (
                        close-counted now id n justification closed_by db high found on,
                        close-fine now id n justification closed_by db high found fine,
                      )
                      (
                        audit-IsRegister closed_by cash_session_closed id _
                            (close_row-IsRegister id change (λ t. refl) db v),
                        inl (
                          n,
                          s,
                          record (change s) { status = closed_session },
                          refl,
                          refl,
                          ltb_ℤ→ge n (pos 0) high,
                          found,
                          on,
                          justified _ justification fine,
                          after,
                          refl,
                          refl,
                          refl,
                          refl,
                          refl,
                          refl,
                          refl,
                          refl,
                          refl,
                        ),
                      )
              ]
        ]
      ]
    ]
