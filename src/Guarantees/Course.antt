-- ===== src/Guarantees/Course.antt =====
-- The whole course of a guarantee in the wallet: shares are paid one after another, and what is left
-- is captured (booking-guarantee.service.ts).
use ardenne_padel_v.Guarantees.Store.{guarantee_released, BookingGuarantee, GuaranteesDb, is_of}
use ardenne_padel_v.Wallet.Debits.{available}
use ardenne_padel_v.Prelude.{
  All, any_by, ℤ, pos, pos_part, neg_part, ◌≤ℤ◌, int_laws, sum_ℤ, -ℤ_zero, zero_+ℤ, ◌+ℤ◌, ◌-ℤ◌,
  negate, Result, ok, ℕ, ◌≡◌, refl, sym, ap, ◌∙◌, subst, inl, inr, false, Option, List, [], ◌∷◌,
  arith,
}
use ardenne_padel_v.Prelude.Action.{Action, pure, ◌>>=◌, ◌>>◌}
use ardenne_padel_v.Wallet.Store.{WalletHold}
use ardenne_padel_v.Wallet.HoldChange.{Falls}
use ardenne_padel_v.Prelude.Keyed.{IsKeyed}
use ardenne_padel_v.Payments.{PaymentProvider}
use ardenne_padel_v.Guarantees.{create_wallet_guarantee, release_for_paid_share, capture_remaining}
use ardenne_padel_v.Guarantees.WalletBacked.{IsBacked, create_wallet_guarantee_lem}
use ardenne_padel_v.Guarantees.PaidShares.{release_for_paid_share_lem}
use ardenne_padel_v.Guarantees.Settled.{EndsAs, capture_remaining_lem}
use ardenne_padel_v.Wallet.Solvency.{IsValid}
use ardenne_padel_v.Wallet.Effects.{Falls-trans, Falls-eq}

-- `releaseForPaidShare` for one paid share after another
unfoldable pub release_shares : ℕ → ℕ → List ℤ → Action GuaranteesDb (Unit {0})
release_shares now booking [] = pure tt
release_shares now booking (amount ∷ amounts) = do
  release_for_paid_share now booking amount
  release_shares now booking amounts

-- After the calls `run`, the capture answers `left`; together they spent that from the account and
-- lifted `reserve` from its reserve.
abbrev pub Accounts :
    PaymentProvider
    → ℕ
    → ℕ
    → Option ℕ
    → ℕ
    → ℤ
    → ℤ
    → GuaranteesDb
    → Result (Unit {0}) × GuaranteesDb
    → Type 0
Accounts provider now booking customer account left reserve db run =
    let (answer, db') = capture_remaining provider now booking customer run.1 in
    (run.0 ≡ ok tt)
    × (answer ≡ ok left)
    × (db'.payments ≡ db.payments)
    × Falls account left reserve db.wallet db'.wallet

sum-nonneg : (xs : List ℤ) → All (λ x. pos 0 ≤ℤ x) xs → pos 0 ≤ℤ sum_ℤ xs
sum-nonneg [] a = omega arith
sum-nonneg (x ∷ xs) a = let n = sum-nonneg xs a.1 in let m = a.0 in omega int_laws

module _ (provider : PaymentProvider) (now booking : ℕ) (customer : Option ℕ) where
  -- A guarantee that has been released.
  release_ended :
      (amount : ℤ) (db : GuaranteesDb)
      → EndsAs booking guarantee_released db
      → release_for_paid_share now booking amount db ≡ (ok tt, db)
  unfolding release_for_paid_share
  release_ended amount db e = rw (e.ended_found, ◌>>=◌, e.ended_status)

  shares_ended :
      (amounts : List ℤ) (db : GuaranteesDb)
      → EndsAs booking guarantee_released db
      → release_shares now booking amounts db ≡ (ok tt, db)
  unfolding release_shares
  shares_ended [] db e = refl
  shares_ended (a ∷ rest) db e =
      let r = release_ended a db e in rw (r, ◌>>=◌, r) (shares_ended rest db e)

  capture_ended :
      (db : GuaranteesDb)
      → EndsAs booking guarantee_released db
      → capture_remaining provider now booking customer db ≡ (ok (pos 0), db)
  unfolding capture_remaining
  capture_ended db e = rw (e.ended_found, ◌>>=◌, e.ended_status)

  one_more :
      (amount : ℤ) (rest : List ℤ) (db : GuaranteesDb)
      → (release_for_paid_share now booking amount db).0 ≡ ok tt
      → release_shares now booking (amount ∷ rest) db
        ≡ release_shares now booking rest (release_for_paid_share now booking amount db).1
  unfolding release_shares
  one_more amount rest db r = rw (r, ◌>>=◌)

  course :
      (amounts : List ℤ) (g : BookingGuarantee) (h : WalletHold) (db : GuaranteesDb)
      → IsBacked booking g h db
      → All (λ a. pos 0 ≤ℤ a) amounts
      → sum_ℤ amounts ≤ℤ g.remaining_guaranteed_cents
      → Accounts provider now booking customer h.wallet_account_id
          (g.remaining_guaranteed_cents -ℤ sum_ℤ amounts)
          g.remaining_guaranteed_cents
          db
          (release_shares now booking amounts db)
  unfolding release_shares
  course [] g h db b p le =
      let (r, same, f, _) = capture_remaining_lem provider now booking customer g h db b in
      rw (-ℤ_zero g.remaining_guaranteed_cents) (refl, r, same, f)
  course (a ∷ rest) g h db b p le =
      let n = sum-nonneg rest p.1 in
      let (r, outcome) = release_for_paid_share_lem now booking a g h db b p.0 in
      let db' = (release_for_paid_share now booking a db).1 in
      elim outcome [
        | inl (covered, s) ↦ elim s.rest [
          | inl (all, (g', found, status, empty)) ↦
              let e : EndsAs booking guarantee_released db' = record {
                ended_row = g';
                ended_found = found;
                ended_status = status;
                ended_empty = empty;
              } in
              let done = one_more a rest db r ∙ shares_ended rest db' e in
              let none_left : g.remaining_guaranteed_cents -ℤ (a +ℤ sum_ℤ rest) ≡ pos 0 =
                omega (int_laws, ap pos_part all, ap neg_part all) in
              rw (done, none_left, capture_ended db' e, all)
                (refl, refl, s.payments_kept, s.reserve_lifted)
          | inr (less, b') ↦
              let later = course rest _ _ db' b' p.1 (omega int_laws) in
              let left : pos 0 +ℤ (g.remaining_guaranteed_cents -ℤ a -ℤ sum_ℤ rest)
                  ≡ g.remaining_guaranteed_cents -ℤ (a +ℤ sum_ℤ rest) =
                omega int_laws in
              let lifted : a +ℤ (g.remaining_guaranteed_cents -ℤ a) ≡ g.remaining_guaranteed_cents =
                omega int_laws in
              let same : g.remaining_guaranteed_cents -ℤ a -ℤ sum_ℤ rest
                  ≡ g.remaining_guaranteed_cents -ℤ (a +ℤ sum_ℤ rest) =
                omega int_laws in
              let f = Falls-trans s.reserve_lifted later.3 in
              rw (one_more a rest db r) (
                later.0,
                later.1 ∙ ap (λ x. ok x) same,
                later.2 ∙ s.payments_kept,
                Falls-eq left lifted f,
              )
        ]
        | inr (short, _) ↦ absurd (omega int_laws)
      ]

-- In a valid wallet whose available balance covers an amount of zero or more, for a booking that
-- has no guarantee: after `createWalletGuarantee` of the amount, payments of shares of zero or more
-- that add up to at most the amount, and `captureRemaining`, no call has thrown and none has asked
-- the payment provider for anything. The capture answers the amount less the paid shares, the
-- account has spent exactly that, and its reserve is what it was before.
pub guarantee_course :
    (provider : PaymentProvider) (now booking organizer account : ℕ) (customer : Option ℕ)
    (amount : ℤ) (paid_shares : List ℤ) (db : GuaranteesDb)
    → IsValid db.wallet
    → IsKeyed (λ (k : BookingGuarantee). k.booking_id) db.guarantees
    → any_by (is_of booking) db.guarantees ≡ false
    → pos 0 ≤ℤ amount
    → amount ≤ℤ available account db.wallet
    → All (λ a. pos 0 ≤ℤ a) paid_shares
    → sum_ℤ paid_shares ≤ℤ amount
    → let (r, created) = create_wallet_guarantee booking organizer account amount db in
      let (r', shared) = release_shares now booking paid_shares created in
      let (answer, db') = capture_remaining provider now booking customer shared in
      ((g : BookingGuarantee) × (r ≡ ok g))
      × (r' ≡ ok tt)
      × (answer ≡ ok (amount -ℤ sum_ℤ paid_shares))
      × (db'.payments ≡ db.payments)
      × Falls account (amount -ℤ sum_ℤ paid_shares) (pos 0) db.wallet db'.wallet
guarantee_course provider now booking organizer account customer amount paid_shares db v keyed fresh
      p enough each le =
    elim (create_wallet_guarantee_lem booking organizer account amount db v keyed fresh p) [
      | inl (g, h, r, own, _, whole, untouched, b, f) ↦
          let made = (create_wallet_guarantee booking organizer account amount db).1 in
          let le' : sum_ℤ paid_shares ≤ℤ g.remaining_guaranteed_cents =
            subst (λ x. sum_ℤ paid_shares ≤ℤ x) (sym whole) le in
          let (r', answer, kept, f') =
            course provider now booking customer paid_shares g h made b each le' in
          let same : g.remaining_guaranteed_cents -ℤ sum_ℤ paid_shares
              ≡ amount -ℤ sum_ℤ paid_shares =
            ap (λ x. x -ℤ sum_ℤ paid_shares) whole in
          let ended =
            (capture_remaining provider now booking customer
              (release_shares now booking paid_shares made).1).1.wallet in
          let ours =
            subst
              (λ x.
                Falls x (g.remaining_guaranteed_cents -ℤ sum_ℤ paid_shares)
                  g.remaining_guaranteed_cents made.wallet ended)
              own f' in
          let lifted : negate amount +ℤ g.remaining_guaranteed_cents ≡ pos 0 =
            rw whole (omega int_laws) in
          (
            (g, r),
            r',
            answer ∙ ap (λ x. ok x) same,
            kept ∙ untouched,
            Falls-eq (zero_+ℤ _ ∙ same) lifted (Falls-trans f ours),
          )
      | inr (short, _, _) ↦ absurd (omega int_laws)
    ]
