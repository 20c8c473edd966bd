-- ===== src/Guarantees/Store.antt =====
-- The table of the guarantees and its queries (booking-guarantee.repository.ts).
use ardenne_padel_v.Prelude.{
  ◌==◌, if◌then◌else◌, any_by, find_by, update_where, count_by, ℤ, leb_ℤ, ◌-ℤ◌, plain_error, ok,
  err, ℕ, Bool, true, false, ◌&&◌, Option, List, ◌∷◌,
}
use ardenne_padel_v.Prelude.Action.{Action, modify, zoom}
use ardenne_padel_v.Wallet.Store.{WalletDb}
use ardenne_padel_v.Payments.{PaymentsDb}

pub data BookingGuaranteeType : Type 0 where
  card_off_session wallet_reserve : BookingGuaranteeType

pub data BookingGuaranteeStatus : Type 0 where
  guarantee_active partially_released consumed guarantee_released : BookingGuaranteeStatus
  guarantee_failed : BookingGuaranteeStatus

pub record BookingGuarantee : Type 0 where
  pub booking_id : ℕ
  pub type : BookingGuaranteeType
  pub organizer_user_id : ℕ
  pub guaranteed_amount_cents : ℤ
  pub remaining_guaranteed_cents : ℤ
  pub wallet_hold_id : Option ℕ
  pub payment_method_id : Option ℕ
  pub status : BookingGuaranteeStatus
  pub released_at : Option ℕ

pub record GuaranteesDb : Type 0 where
  pub wallet : WalletDb
  pub payments : PaymentsDb
  pub guarantees : List BookingGuarantee

abbrev pub on_wallet : {A : Type 0} → Action WalletDb A → Action GuaranteesDb A
on_wallet = zoom (λ db. db.wallet) (λ w db. record db { wallet = w })

abbrev pub on_payments : {A : Type 0} → Action PaymentsDb A → Action GuaranteesDb A
on_payments = zoom (λ db. db.payments) (λ p db. record db { payments = p })

abbrev pub is_of : ℕ → BookingGuarantee → Bool
is_of booking g = g.booking_id == booking

-- `findByBookingId`
abbrev pub find_by_booking_id : ℕ → GuaranteesDb → Option BookingGuarantee
find_by_booking_id booking db = find_by (is_of booking) db.guarantees

-- `create`: a booking has one guarantee at most.
unfoldable pub create_guarantee : BookingGuarantee → Action GuaranteesDb BookingGuarantee
create_guarantee g db =
    if any_by (is_of g.booking_id) db.guarantees
    then (err plain_error, db)
    else (ok g, record db { guarantees = g ∷ db.guarantees })

abbrev pub is_open : BookingGuaranteeStatus → Bool
is_open guarantee_active = true
is_open partially_released = true
is_open _ = false

-- `guarantee.status === "RELEASED" || guarantee.status === "CONSUMED"`
abbrev pub is_settled : BookingGuaranteeStatus → Bool
is_settled guarantee_released = true
is_settled consumed = true
is_settled _ = false

abbrev pub can_release : ℕ → ℤ → BookingGuarantee → Bool
can_release booking amount g =
    is_of booking g && is_open g.status && leb_ℤ amount g.remaining_guaranteed_cents

-- `releaseAmount`
unfoldable pub release_amount : ℕ → ℤ → GuaranteesDb → Bool × GuaranteesDb
release_amount booking amount db = (
  count_by (can_release booking amount) db.guarantees == 1,
  record db {
    guarantees =
        update_where (can_release booking amount)
          (λ g. record g { remaining_guaranteed_cents = g.remaining_guaranteed_cents -ℤ amount })
          db.guarantees;
  },
)

-- `markStatus` of a booking whose guarantee was found; the data is a function on the row.
abbrev pub mark_status : ℕ → (BookingGuarantee → BookingGuarantee) → Action GuaranteesDb (Unit {0})
mark_status booking change =
    modify (λ db. record db { guarantees = update_where (is_of booking) change db.guarantees })

abbrev pub set_status : BookingGuaranteeStatus → BookingGuarantee → BookingGuarantee
set_status status g = record g { status = status }
