-- ===== src/Wallet/Refunds/Booked.antt =====
-- The ledger after a refund.
use ardenne_padel_v.Wallet.Refunds.Left.{
  Purpose, a_booking, a_bar_account, left_for, left_total, IsRefundRow, left_total-refund,
  left_for-booking, left_for-bar_account,
}
use ardenne_padel_v.Prelude.{
  ==_refl, Bool-cases, All, filter_by, ℤ, pos, ◌≤ℤ◌, ◌<ℤ◌, ltb_ℤ, is_positive, int_laws, ltb_ℤ→lt,
  ltb_ℤ→ge, ◌-ℤ◌, negate, validation_failed, app_error, Result, ok, err, integer, ℕ, ◌≡◌, refl, ap,
  ◌∙◌, subst, ◌⊎◌, inl, inr, List, [], ◌∷◌, map,
}
use ardenne_padel_v.Wallet.Store.{WalletTransaction, WalletDb, Breakdown, create_transactions}
use ardenne_padel_v.Wallet.Allocation.{
  Allocation, breakdown_total, allocated_sum, allocate_proportionally,
}
use ardenne_padel_v.Wallet.Allocation.Across.{IsNonneg}
use ardenne_padel_v.Wallet.Service.{
  refund, nextore_refund_row, refund_for_nextore_account, booking_refund_row, refund_for_booking,
}
use ardenne_padel_v.Wallet.Ledger.{IsRow}
use ardenne_padel_v.Wallet.Solvency.{IsValid}
use ardenne_padel_v.Wallet.HoldChange.{Falls}
use ardenne_padel_v.Wallet.Credits.{rows-credited}
use ardenne_padel_v.Wallet.Refunds.{IsWithin, allocate_proportionally_exact}

abbrev positive : List Allocation → List Allocation
positive bs = filter_by (λ b. is_positive b.amount_cents) bs

positive-twice :
    (bs : List Allocation)
    → All (λ b. pos 0 ≤ℤ b.amount_cents) bs
    → (positive (positive bs) ≡ positive bs)
      × (allocated_sum (positive bs) ≡ allocated_sum bs)
      × All (λ b. pos 0 <ℤ b.amount_cents) (positive bs)
positive-twice [] h = (refl, refl, tt)
positive-twice (b ∷ bs) h = elim (Bool-cases (is_positive b.amount_cents)) [
  | inl e ↦
      let (again, same, all) = positive-twice bs h.1 in
      rw (e, again, same) (rw e refl, refl, (ltb_ℤ→lt (pos 0) b.amount_cents e, all))
  | inr e ↦
      let (again, same, all) = positive-twice bs h.1 in
      let low = ltb_ℤ→ge (pos 0) b.amount_cents e in
      let nonneg = h.0 in rw (e, same) (again, omega int_laws, all)
]

within-nonneg :
    (refundable : Breakdown) (bs : List Allocation)
    → All (IsWithin refundable) bs
    → All (λ b. pos 0 ≤ℤ b.amount_cents) bs
within-nonneg refundable [] h = tt
within-nonneg refundable (b ∷ bs) h = (h.0.0, within-nonneg refundable bs h.1)

-- What is left for the purpose is credited to the account to the cent, and is then less by as much;
-- more than that is refused, with nothing written.
abbrev pub RefundsOrRefuses : ℕ → ℤ → Purpose → WalletDb → Result (Unit {0}) × WalletDb → Type 0
RefundsOrRefuses account amount purpose db (r, db') =
    ((amount ≤ℤ left_total purpose db)
      × (r ≡ ok tt)
      × Falls account (negate amount) (pos 0) db db'
      × (left_total purpose db' ≡ left_total purpose db -ℤ amount))
    ⊎ ((left_total purpose db <ℤ amount) × (r ≡ err (app_error validation_failed 422)) × (db' ≡ db))

total_of_left :
    (purpose : Purpose) (db : WalletDb)
    → breakdown_total (left_for purpose db) ≡ left_total purpose db
unfolding breakdown_total
total_of_left purpose db = refl

refund-RefundsOrRefuses :
    (account : ℕ) (amount : ℤ) (purpose : Purpose) (row : Allocation → WalletTransaction)
    (db : WalletDb)
    → IsRow account (λ x. x) row
    → IsRefundRow purpose row
    → IsValid db
    → IsNonneg (left_for purpose db)
    → pos 0 ≤ℤ amount
    → RefundsOrRefuses account amount purpose db (refund amount (left_for purpose db) row db)
unfolding refund
refund-RefundsOrRefuses account amount purpose row db r names v n p =
    let refundable = left_for purpose db in
    let total = total_of_left purpose db in
    elim (Bool-cases (ltb_ℤ (breakdown_total refundable) amount)) [
      | inl over ↦
          let lt = ltb_ℤ→lt (breakdown_total refundable) amount over in
          rw over (inr (subst (λ x. x <ℤ amount) total lt, refl, refl))
      | inr within ↦
          let le = ltb_ℤ→ge (breakdown_total refundable) amount within in
          let (sum, each) = allocate_proportionally_exact amount refundable n p le in
          let bs = allocate_proportionally amount refundable in
          let (again, same, all) = positive-twice bs (within-nonneg refundable bs each) in
          let effect = rows-credited account row r (positive bs) all db v in
          let effect' : Falls account (negate (allocated_sum (positive bs))) (pos 0) db
              (create_transactions (map row (positive bs)) db) =
            rw again at effect in
          let effect'' : Falls account (negate amount) (pos 0) db
              (create_transactions (map row (positive bs)) db) =
            rw (same ∙ sum) at effect' in
          let left = left_total-refund purpose row (positive bs) db names in
          rw within (
            inl (
              subst (λ x. amount ≤ℤ x) total le,
              refl,
              effect'',
              left ∙ ap (λ x. left_total purpose db -ℤ x) (same ∙ sum),
            ))
    ]

-- In a valid store, a refund for a booking, or for a bar account, of an amount of zero or more, where
-- what was debited for it on any wallet and not yet given back is below zero for no origin: if that
-- is at least the amount, the total of the wallet rises by exactly the amount, no reserve and no
-- other wallet changes, and what is left to give back falls by the amount; otherwise the refund
-- throws VALIDATION_FAILED and writes nothing. The store stays valid.
pub refunds_exact :
    (account target : ℕ) (amount : ℤ) (db : WalletDb)
    → IsValid db
    → pos 0 ≤ℤ amount
    → IsNonneg (left_for (a_booking target) db)
    → IsNonneg (left_for (a_bar_account target) db)
    → RefundsOrRefuses account amount
        (a_booking target)
        db
        (refund_for_booking account target (integer amount) db)
      × RefundsOrRefuses account amount
          (a_bar_account target)
          db
          (refund_for_nextore_account account target (integer amount) db)
refunds_exact account target amount db v p n m = (
  unfold refund_for_booking in
      rw (left_for-booking target db) (
        refund-RefundsOrRefuses account amount (a_booking target)
          (booking_refund_row account target) db
          (record { own = λ b. refl; counts = λ b. refl; amount = λ b. refl; kept = λ b. refl })
          (record {
            spends_nothing = λ b. refl;
            gives_back = λ b. rw (==_refl target);
            amount = λ b. refl;
            kept = λ b. refl;
          })
          v n p),
  unfold refund_for_nextore_account in
      rw (left_for-bar_account target db) (
        refund-RefundsOrRefuses account amount (a_bar_account target)
          (nextore_refund_row account target) db
          (record { own = λ b. refl; counts = λ b. refl; amount = λ b. refl; kept = λ b. refl })
          (record {
            spends_nothing = λ b. refl;
            gives_back = λ b. rw (==_refl target);
            amount = λ b. refl;
            kept = λ b. refl;
          })
          v m p),
)
