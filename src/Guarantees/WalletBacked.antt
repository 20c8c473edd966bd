-- ===== src/Guarantees/WalletBacked.antt =====
-- A guarantee that is a reserve in the organiser's wallet, and the hold behind it
-- (booking-guarantee.service.ts over wallet.service.ts).
use ardenne_padel_v.Guarantees.Store.{
  wallet_reserve, BookingGuaranteeStatus, guarantee_active, partially_released, consumed,
  guarantee_released, guarantee_failed, BookingGuarantee, GuaranteesDb, is_of, find_by_booking_id,
  create_guarantee, is_open, is_settled,
}
use ardenne_padel_v.Prelude.{
  ◌==◌, ==_refl, any_by, find_by, ℤ, pos, ◌≤ℤ◌, ◌<ℤ◌, negate, Error, ok, err, integer, ℕ, ◌≡◌, refl,
  ◌⊎◌, inl, inr, true, false, Option, none, some, some-injective, List, [], ◌∷◌,
}
use ardenne_padel_v.Prelude.Keyed.{IsKeyed, any_by-fresh}
use ardenne_padel_v.Wallet.Store.{
  WalletHold, WalletDb, is_active, create_hold_row, find_hold, find_hold_by_id,
}
use ardenne_padel_v.Wallet.Service.{insufficient, create_hold}
use ardenne_padel_v.Wallet.Solvency.{IsValid}
use ardenne_padel_v.Wallet.HoldChange.{Falls}
use ardenne_padel_v.Wallet.Debits.{available}
use ardenne_padel_v.Guarantees.{
  new_guarantee, create_wallet_guarantee, hold_of, with_hold, from_hold, source_of,
}
use ardenne_padel_v.Wallet.PartialRelease.{create_hold_exact}
use ardenne_padel_v.Prelude.Action.{Action, ◌>>=◌}

-- The open guarantee `g` of a booking, and the active hold `h` of what remains of it.
pub record IsBacked (booking : ℕ) (g : BookingGuarantee) (h : WalletHold) (db : GuaranteesDb)
    : Type 0 where
  pub found : find_by_booking_id booking db ≡ some g
  pub one_each : IsKeyed (λ (k : BookingGuarantee). k.booking_id) db.guarantees
  pub reserve : hold_of g.type g.wallet_hold_id ≡ some h.id
  pub source : source_of g.type g.wallet_hold_id g.payment_method_id ≡ from_hold h.id
  pub held : find_hold_by_id h.id db.wallet ≡ some h
  pub live : is_active h.status ≡ true
  pub still_open : is_open g.status ≡ true
  pub in_step : h.amount_cents ≡ g.remaining_guaranteed_cents
  pub sound : IsValid db.wallet

pub find_hold-find_by :
    (id : ℕ) (hs : List WalletHold) → find_hold id hs ≡ find_by (λ h. h.id == id) hs
unfolding find_hold
find_hold-find_by id [] = refl
find_hold-find_by id (h ∷ hs) = rw (find_hold-find_by id hs)

pub is_open→unsettled : (s : BookingGuaranteeStatus) → is_open s ≡ true → is_settled s ≡ false
is_open→unsettled guarantee_active t = refl
is_open→unsettled partially_released t = refl
is_open→unsettled consumed t = cc
is_open→unsettled guarantee_released t = cc
is_open→unsettled guarantee_failed t = cc

-- A call with a hold that was made, and one with a hold that was refused.
module _ (booking organizer account : ℕ) (amount : ℤ) (db : GuaranteesDb) where
  abbrev after_hold : GuaranteesDb
  after_hold = record db { wallet = (create_hold account booking (integer amount) db.wallet).1 }

  guaranteed :
      (h : WalletHold)
      → (create_hold account booking (integer amount) db.wallet).0 ≡ ok h
      → any_by (is_of booking) db.guarantees ≡ false
      → let g = new_guarantee booking organizer amount wallet_reserve (some h.id) none in
        create_wallet_guarantee booking organizer account amount db
        ≡ (ok g, record after_hold { guarantees = g ∷ db.guarantees })
  unfolding create_wallet_guarantee create_guarantee
  guaranteed h r fresh = rw (r, ◌>>=◌, fresh)

  not_guaranteed :
      (e : Error)
      → (create_hold account booking (integer amount) db.wallet).0 ≡ err e
      → create_wallet_guarantee booking organizer account amount db ≡ (err e, after_hold)
  unfolding create_wallet_guarantee create_guarantee
  not_guaranteed e r = rw (r, ◌>>=◌)

-- For a booking that has no guarantee yet, in a valid wallet, `createWalletGuarantee` of an amount
-- of zero or more that the available balance covers writes an open guarantee of this amount with an
-- active hold of the same amount behind it, and raises the reserve of the account by it and nothing
-- else. If the balance does not cover it, it throws INSUFFICIENT_WALLET_BALANCE and writes nothing.
pub create_wallet_guarantee_lem :
    (booking organizer account : ℕ) (amount : ℤ) (db : GuaranteesDb)
    → IsValid db.wallet
    → IsKeyed (λ (k : BookingGuarantee). k.booking_id) db.guarantees
    → any_by (is_of booking) db.guarantees ≡ false
    → pos 0 ≤ℤ amount
    → let (r, db') = create_wallet_guarantee booking organizer account amount db in
      ((g : BookingGuarantee) × (h : WalletHold) × (r ≡ ok g)
        × (h.wallet_account_id ≡ account)
        × (g.guaranteed_amount_cents ≡ amount)
        × (g.remaining_guaranteed_cents ≡ amount)
        × (db'.payments ≡ db.payments)
        × IsBacked booking g h db'
        × Falls account (pos 0) (negate amount) db.wallet db'.wallet)
      ⊎ ((available account db.wallet <ℤ amount) × (r ≡ err insufficient) × (db' ≡ db))
create_wallet_guarantee_lem booking organizer account amount db v keyed fresh p =
    elim (create_hold_exact account booking amount db.wallet v p) [
      | inl (_, r, found, f) ↦
          let h = (create_hold_row account booking amount db.wallet).0 in
          let g = new_guarantee booking organizer amount wallet_reserve (some h.id) none in
          rw (guaranteed booking organizer account amount db h r fresh) (
            inl (
              g,
              h,
              refl,
              refl,
              refl,
              refl,
              refl,
              record {
                found = rw (==_refl booking);
                one_each = (
                  any_by-fresh (λ (k : BookingGuarantee). k.booking_id) booking db.guarantees fresh,
                  keyed,
                );
                reserve = refl;
                source = refl;
                held = found;
                live = refl;
                still_open = refl;
                in_step = refl;
                sound = f.valid;
              },
              f,
            ))
      | inr (short, r, same) ↦
          rw (not_guaranteed booking organizer account amount db insufficient r, same)
            (inr (short, refl, refl))
    ]

-- A call on the hold of a guarantee that succeeds.
pub with_hold_lem :
    (o : Option ℕ) (m : ℕ → Action WalletDb (Unit {0})) (hold : ℕ) (s : GuaranteesDb)
    → o ≡ some hold
    → (m hold s.wallet).0 ≡ ok tt
    → with_hold o m s ≡ (ok tt, record s { wallet = (m hold s.wallet).1 })
with_hold_lem none m hold s e r = cc
with_hold_lem (some x) m hold s e r = let same : x ≡ hold = some-injective _ _ e in rw (same, r)
