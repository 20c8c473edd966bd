-- ===== src/Guarantees/Settled.antt =====
-- How a guarantee in the wallet ends: `captureRemaining` and `releaseEntirely`
-- (booking-guarantee.service.ts).
use ardenne_padel_v.Guarantees.Store.{
  BookingGuaranteeStatus, consumed, guarantee_released, BookingGuarantee, GuaranteesDb, is_of,
  find_by_booking_id,
}
use ardenne_padel_v.Prelude.{
  ◌==◌, Bool-cases, find_by, update_where, pos, ◌==ℤ◌, ==ℤ_iff, ok, ℕ, ◌≡◌, refl, sym, ap, ◌∙◌,
  subst, ◌≢◌, ◌⊎◌, inl, inr, true, false, Option, some, List,
}
use ardenne_padel_v.Prelude.Action.{◌>>=◌}
use ardenne_padel_v.Prelude.Keyed.{find_by-update_where, find_by-found}
use ardenne_padel_v.Wallet.Store.{WalletHold}
use ardenne_padel_v.Wallet.Service.{release_hold, capture_hold}
use ardenne_padel_v.Wallet.Holds.{release_active, capture_active}
use ardenne_padel_v.Payments.{PaymentProvider}
use ardenne_padel_v.Guarantees.{
  hold_of, release_whole, release_entirely, from_hold, source_of, take_rest, consume, capture_rest,
  capture_remaining,
}
use ardenne_padel_v.Guarantees.WalletBacked.{IsBacked, is_open→unsettled, with_hold_lem}
use ardenne_padel_v.Wallet.HoldChange.{Falls}
use ardenne_padel_v.Wallet.Effects.{Falls-refl}

-- A booking's guarantee `g'` is there with nothing left, in the given status.
pub record EndsAs (booking : ℕ) (status : BookingGuaranteeStatus) (db : GuaranteesDb) : Type 0 where
  pub ended_row : BookingGuarantee
  pub ended_found : find_by_booking_id booking db ≡ some ended_row
  pub ended_status : ended_row.status ≡ status
  pub ended_empty : ended_row.remaining_guaranteed_cents ≡ pos 0

pub marked_found :
    (booking : ℕ) (change : BookingGuarantee → BookingGuarantee) (gs : List BookingGuarantee)
    {g : BookingGuarantee}
    → ((k : BookingGuarantee) → (change k).booking_id ≡ k.booking_id)
    → find_by (is_of booking) gs ≡ some g
    → find_by (is_of booking) (update_where (is_of booking) change gs) ≡ some (change g)
marked_found booking change gs same found =
    find_by-update_where (is_of booking) (is_of booking) change gs
      (λ k. ap (λ n. n == booking) (same k)) found
    ∙ rw (find_by-found (is_of booking) gs found)

take_held :
    (provider : PaymentProvider) (now booking : ℕ) (customer : Option ℕ) (g : BookingGuarantee)
    (hold : ℕ) (s : GuaranteesDb)
    → source_of g.type g.wallet_hold_id g.payment_method_id ≡ from_hold hold
    → (capture_hold now hold s.wallet).0 ≡ ok tt
    → take_rest provider now booking customer g s
      ≡ (ok tt, record s { wallet = (capture_hold now hold s.wallet).1 })
unfolding take_rest
take_held provider now booking customer g hold s e r = rw (e, r)

module _ (now booking : ℕ) (g : BookingGuarantee) (h : WalletHold) (db : GuaranteesDb)
    (b : IsBacked booking g h db) where
  captured_db : GuaranteesDb
  captured_db = record db {
    wallet = (capture_hold now h.id db.wallet).1;
    guarantees = update_where (is_of booking) consume db.guarantees;
  }

  capture_taken :
      (provider : PaymentProvider) (customer : Option ℕ)
      → (g.remaining_guaranteed_cents ==ℤ pos 0) ≡ false
      → capture_remaining provider now booking customer db
        ≡ (ok g.remaining_guaranteed_cents, captured_db)
  unfolding capture_remaining capture_rest captured_db
  capture_taken provider customer left =
      let (r, _) = capture_active now h.id h db.wallet b.sound b.held b.live in
      let taken = take_held provider now booking customer g h.id db b.source r in
      rw (b.found, ◌>>=◌, is_open→unsettled g.status b.still_open, left, taken, ◌>>=◌, taken)

  capture_empty :
      (provider : PaymentProvider) (customer : Option ℕ)
      → (g.remaining_guaranteed_cents ==ℤ pos 0) ≡ true
      → capture_remaining provider now booking customer db ≡ (ok (pos 0), db)
  unfolding capture_remaining
  capture_empty provider customer empty =
      rw (b.found, ◌>>=◌, is_open→unsettled g.status b.still_open, empty)

  release_taken : release_entirely now booking db ≡ (
    ok tt,
    record db {
      wallet = (release_hold now h.id db.wallet).1;
      guarantees = update_where (is_of booking) (release_whole now) db.guarantees;
    },
  )
  unfolding release_entirely
  release_taken =
      let (r, _) = release_active now h.id h db.wallet b.sound b.held b.live in
      let done =
        with_hold_lem (hold_of g.type g.wallet_hold_id) (release_hold now) h.id db b.reserve r in
      rw (b.found, ◌>>=◌, is_open→unsettled g.status b.still_open, done, ◌>>=◌, done)

-- The capture of what is left of a guarantee that is open and backed by a hold never throws and
-- asks the payment provider for nothing. With nothing left it answers zero and changes nothing;
-- otherwise it answers what is left, spends exactly that from the account and lifts it from the
-- reserve, and the guarantee is consumed, with nothing left.
pub capture_remaining_lem :
    (provider : PaymentProvider) (now booking : ℕ) (customer : Option ℕ) (g : BookingGuarantee)
    (h : WalletHold) (db : GuaranteesDb)
    → IsBacked booking g h db
    → let (r, db') = capture_remaining provider now booking customer db in
      (r ≡ ok g.remaining_guaranteed_cents)
      × (db'.payments ≡ db.payments)
      × Falls h.wallet_account_id g.remaining_guaranteed_cents g.remaining_guaranteed_cents
          db.wallet db'.wallet
      × (((g.remaining_guaranteed_cents ≡ pos 0) × (db' ≡ db))
          ⊎ ((g.remaining_guaranteed_cents ≢ pos 0) × EndsAs booking consumed db'))
unfolding captured_db
capture_remaining_lem provider now booking customer g h db b =
    elim (Bool-cases (g.remaining_guaranteed_cents ==ℤ pos 0)) [
      | inl empty ↦
          let e = (==ℤ_iff g.remaining_guaranteed_cents (pos 0)).0 empty in
          rw (capture_empty now booking g h db b provider customer empty) (
            ap (λ x. ok x) (sym e),
            refl,
            subst (λ x. Falls h.wallet_account_id x x db.wallet db.wallet) (sym e)
                (Falls-refl h.wallet_account_id db.wallet b.sound),
            inl (e, refl),
          )
      | inr left ↦
          let (_, f) = capture_active now h.id h db.wallet b.sound b.held b.live in
          rw (capture_taken now booking g h db b provider customer left) (
            refl,
            refl,
            subst (λ x. Falls h.wallet_account_id x x db.wallet (capture_hold now h.id db.wallet).1)
                b.in_step f,
            inr (
              λ e. cc (left, (==ℤ_iff g.remaining_guaranteed_cents (pos 0)).1 e),
              record {
                ended_row = consume g;
                ended_found = marked_found booking consume db.guarantees (λ k. refl) b.found;
                ended_status = refl;
                ended_empty = refl;
              },
            ),
          )
    ]

-- `releaseEntirely` of a guarantee that is open and backed by a hold never throws: it lifts what is
-- left from the reserve, moves no money, and the guarantee is released, with nothing left.
pub release_entirely_lem :
    (now booking : ℕ) (g : BookingGuarantee) (h : WalletHold) (db : GuaranteesDb)
    → IsBacked booking g h db
    → let (r, db') = release_entirely now booking db in
      (r ≡ ok tt)
      × (db'.payments ≡ db.payments)
      × Falls h.wallet_account_id (pos 0) g.remaining_guaranteed_cents db.wallet db'.wallet
      × EndsAs booking guarantee_released db'
release_entirely_lem now booking g h db b =
    let (_, f) = release_active now h.id h db.wallet b.sound b.held b.live in
    rw (release_taken now booking g h db b) (
      refl,
      refl,
      subst (λ x. Falls h.wallet_account_id (pos 0) x db.wallet (release_hold now h.id db.wallet).1)
          b.in_step f,
      record {
        ended_row = release_whole now g;
        ended_found = marked_found booking (release_whole now) db.guarantees (λ k. refl) b.found;
        ended_status = refl;
        ended_empty = refl;
      },
    )
