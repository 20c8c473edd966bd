-- ===== src/Guarantees/Tests.antt =====
-- Concrete guarantees.
use ardenne_padel_v.Guarantees.Store.{
  card_off_session, wallet_reserve, guarantee_released, BookingGuarantee, GuaranteesDb,
}
use ardenne_padel_v.Wallet.PartialRelease.{create_hold_exact}
use ardenne_padel_v.Prelude.{
  ℤ, pos, ◌≤ℤ◌, ◌<ℤ◌, int_laws, sum_ℤ, ◌+ℤ◌, ◌-ℤ◌, ok, integer, ◌≡◌, refl, ◌⊎◌, inl, inr, none,
  some, List, [], ◌∷◌, arith,
}
use ardenne_padel_v.Wallet.Store.{
  WalletHold, WalletDb, sum_where, get_balance_total_cents, get_balance_by_origin, sum_active,
  get_reserved_cents, create_hold_row, find_hold_by_id,
}
use ardenne_padel_v.Wallet.Service.{credit_from_pack_purchase, create_hold}
use ardenne_padel_v.Wallet.Solvency.{IsValid}
use ardenne_padel_v.Wallet.HoldChange.{Falls}
use ardenne_padel_v.Wallet.Credits.{credit_from_pack_purchase_exact}
use ardenne_padel_v.Wallet.Debits.{available}
use ardenne_padel_v.Payments.{requires_capture, succeeded, PaymentProvider, PaymentsDb}
use ardenne_padel_v.Guarantees.{
  new_guarantee, create_wallet_guarantee, release_entirely, release_for_paid_share,
  capture_remaining,
}
use ardenne_padel_v.Guarantees.Course.{release_shares, guarantee_course}
use ardenne_padel_v.Wallet.Allocation.{breakdown_total}
use ardenne_padel_v.Guarantees.WalletBacked.{IsBacked}
use ardenne_padel_v.Guarantees.PaidShares.{ShareReleased, release_for_paid_share_lem}
use ardenne_padel_v.Guarantees.Settled.{EndsAs, release_entirely_lem}

abbrev empty_wallet : WalletDb
empty_wallet = record { accounts = []; transactions = []; holds = []; next_id = 1 }

empty_wallet-IsValid : IsValid empty_wallet
unfolding get_balance_total_cents get_balance_by_origin get_reserved_cents sum_where sum_active
    breakdown_total ◌+ℤ◌
empty_wallet-IsValid = record {
  solvent = λ a. record {
    origins = record {
      paid_nonneg = omega arith;
      bonus_nonneg = omega arith;
      admin_comp_nonneg = omega arith;
    };
    summed = refl;
    covered = omega arith;
  };
  holds_fresh = tt;
  holds_distinct = tt;
  holds_nonneg = tt;
}

-- A wallet with 20.00 paid and 5.00 of bonus.
abbrev stocked : WalletDb
stocked = (credit_from_pack_purchase 1 7 (integer (pos 2000)) (integer (pos 500)) empty_wallet).1

stocked-IsValid : IsValid stocked
stocked-IsValid =
    (credit_from_pack_purchase_exact 1 7 (pos 2000) (pos 500) empty_wallet empty_wallet-IsValid
      (omega arith) (omega arith)).1.valid

stocked-available : pos 1500 ≤ℤ available 1 stocked
unfolding credit_from_pack_purchase get_balance_total_cents get_reserved_cents sum_where sum_active
    ◌+ℤ◌ ◌-ℤ◌
stocked-available = omega arith

abbrev no_payments : PaymentsDb
no_payments = record { payments = []; users = []; requests = []; next_id = 1 }

abbrev start : GuaranteesDb
start = record { wallet = stocked; payments = no_payments; guarantees = [] }

-- A provider that takes all money after a capture.
abbrev accepting : PaymentProvider
accepting = record {
  create_customer = λ user. ok user;
  create_payment = λ input.
      ok (record { provider_payment_id = 77; status = requires_capture; client_secret = none });
  confirm_or_capture =
      λ id. ok (record { provider_payment_id = id; status = succeeded; client_secret = none });
  charge_saved_method = λ input.
      ok (record { provider_payment_id = 77; status = requires_capture; client_secret = none });
}

abbrev two_shares : List ℤ
two_shares = pos 500 ∷ pos 300 ∷ []

shares_small : sum_ℤ two_shares ≤ℤ pos 1500
unfolding ◌+ℤ◌
shares_small = omega arith

-- 15.00 are guaranteed, two shares are paid, and the rest of 7.00 is captured.
guarantee_course_example :
    let (r, created) = create_wallet_guarantee 9 4 1 (pos 1500) start in
    let (r', shared) = release_shares 50 9 two_shares created in
    let (answer, db') = capture_remaining accepting 50 9 none shared in
    ((g : BookingGuarantee) × (r ≡ ok g))
    × (r' ≡ ok tt)
    × (answer ≡ ok (pos 1500 -ℤ sum_ℤ two_shares))
    × (db'.payments ≡ no_payments)
    × Falls 1 (pos 1500 -ℤ sum_ℤ two_shares) (pos 0) stocked db'.wallet
guarantee_course_example =
    guarantee_course accepting 50 9 4 1 none (pos 1500) two_shares start stocked-IsValid tt refl
      (omega arith) stocked-available (omega arith, (omega arith, tt)) shares_small

-- 15.00 of the wallet are held for a booking.
abbrev held : WalletDb
held = (create_hold 1 9 (integer (pos 1500)) stocked).1

held-IsValid : IsValid held
held-IsValid = elim (create_hold_exact 1 9 (pos 1500) stocked stocked-IsValid (omega arith)) [
  | inl (_, _, _, f) ↦ f.valid
  | inr (short, _, _) ↦ let enough = stocked-available in absurd (omega int_laws)
]

abbrev the_hold : WalletHold
the_hold = (create_hold_row 1 9 (pos 1500) stocked).0

abbrev the_guarantee : BookingGuarantee
the_guarantee = new_guarantee 9 4 (pos 1500) wallet_reserve (some the_hold.id) none

abbrev backed : GuaranteesDb
backed = record start { wallet = held; guarantees = the_guarantee ∷ [] }

hold_kept : find_hold_by_id the_hold.id held ≡ some the_hold
hold_kept = elim (create_hold_exact 1 9 (pos 1500) stocked stocked-IsValid (omega arith)) [
  | inl (_, _, found, _) ↦ found
  | inr (short, _, _) ↦ let enough = stocked-available in absurd (omega int_laws)
]

backed-IsBacked : IsBacked 9 the_guarantee the_hold backed
backed-IsBacked = record {
  found = refl;
  one_each = (tt, tt);
  reserve = refl;
  source = refl;
  held = hold_kept;
  live = refl;
  still_open = refl;
  in_step = refl;
  sound = held-IsValid;
}

-- A share of 5.00 is paid.
release_for_paid_share_lem_example :
    let (r, db') = release_for_paid_share 50 9 (pos 500) backed in
    (r ≡ ok tt)
    × (((pos 500 ≤ℤ pos 1500) × ShareReleased 9 (pos 500) the_guarantee the_hold backed db')
        ⊎ ((pos 1500 <ℤ pos 500) × (db' ≡ backed)))
release_for_paid_share_lem_example =
    release_for_paid_share_lem 50 9 (pos 500) the_guarantee the_hold backed backed-IsBacked
      (omega arith)

release_entirely_lem_example :
    let (r, db') = release_entirely 50 9 backed in
    (r ≡ ok tt)
    × (db'.payments ≡ no_payments)
    × Falls 1 (pos 0) (pos 1500) held db'.wallet
    × EndsAs 9 guarantee_released db'
release_entirely_lem_example =
    release_entirely_lem 50 9 the_guarantee the_hold backed backed-IsBacked

-- A guarantee of 15.00 on the card 6 of the customer 8.
abbrev on_card : BookingGuarantee
on_card = new_guarantee 9 4 (pos 1500) card_off_session none (some 6)

abbrev carded : GuaranteesDb
carded = record start { guarantees = on_card ∷ [] }

-- The provider takes the money, so that the guarantee is consumed.
card_taken : (capture_remaining accepting 50 9 (some 8) carded).0 ≡ ok (pos 1500)
unfolding capture_remaining
card_taken = refl
