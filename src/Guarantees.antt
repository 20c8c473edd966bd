-- ===== src/Guarantees.antt =====
-- The organiser's guarantee of a shared booking:
-- apps/api/src/modules/bookings/booking-guarantee.service.ts and booking-guarantee.repository.ts,
-- over the wallet and the payment provider. Amounts are whole cents, as `computeSplitShares` makes
-- them; the time of a call is its argument `now`.
pub mod Store
pub mod WalletBacked
pub mod PaidShares
pub mod Settled
pub mod Course
pub mod CardAnswers
pub mod CardBacked
mod Tests
use ardenne_padel_v.Guarantees.Store.{
  BookingGuaranteeType, card_off_session, wallet_reserve, guarantee_active, partially_released,
  consumed, guarantee_released, guarantee_failed, BookingGuarantee, GuaranteesDb, on_wallet,
  on_payments, find_by_booking_id, create_guarantee, is_settled, release_amount, mark_status,
  set_status,
}
use ardenne_padel_v.Prelude.{
  if◌then◌else◌, ℤ, pos, ◌==ℤ◌, validation_failed, guarantee_capture_failed, Error, app_error, ok,
  integer, ℕ, Bool, not, ◌||◌, Option, none, some,
}
use ardenne_padel_v.Prelude.Action.{Action, pure, raise, gets, from_update, ◌>>=◌, ◌>>◌, if_then}
use ardenne_padel_v.Wallet.Store.{WalletDb}
use ardenne_padel_v.Wallet.Service.{create_hold, release_hold, release_hold_partially, capture_hold}
use ardenne_padel_v.Payments.{
  PaymentIntentStatus, requires_action, requires_capture, succeeded, refused, canceled,
  for_guarantee_capture, PaymentInput, saved_method_request, capture_request, PaymentProvider, ask,
}

abbrev pub new_guarantee : ℕ → ℕ → ℤ → BookingGuaranteeType → Option ℕ → Option ℕ → BookingGuarantee
new_guarantee booking organizer amount type hold method = record {
  booking_id = booking;
  type = type;
  organizer_user_id = organizer;
  guaranteed_amount_cents = amount;
  remaining_guaranteed_cents = amount;
  wallet_hold_id = hold;
  payment_method_id = method;
  status = guarantee_active;
  released_at = none;
}

-- `createWalletGuarantee`
unfoldable pub create_wallet_guarantee : ℕ → ℕ → ℕ → ℤ → Action GuaranteesDb BookingGuarantee
unfolding create_guarantee
create_wallet_guarantee booking organizer account amount = do
  hold ← on_wallet (create_hold account booking (integer amount))
  create_guarantee (new_guarantee booking organizer amount wallet_reserve (some hold.id) none)

-- `createCardGuarantee`
unfoldable pub create_card_guarantee : ℕ → ℕ → ℤ → ℕ → Action GuaranteesDb BookingGuarantee
unfolding create_guarantee
create_card_guarantee booking organizer amount method =
    create_guarantee (new_guarantee booking organizer amount card_off_session none (some method))

-- `guarantee.type === "WALLET_RESERVE" && guarantee.walletHoldId`, the hold
abbrev pub hold_of : BookingGuaranteeType → Option ℕ → Option ℕ
hold_of wallet_reserve hold = hold
hold_of card_off_session hold = none

-- An action on the hold of a guarantee, if it has one
abbrev pub with_hold : Option ℕ → (ℕ → Action WalletDb (Unit {0})) → Action GuaranteesDb (Unit {0})
with_hold none m = pure tt
with_hold (some hold) m = on_wallet (m hold)

-- The body of the methods that do nothing without an unsettled guarantee
abbrev pub unless_settled :
    Option BookingGuarantee
    → (BookingGuarantee → Action GuaranteesDb (Unit {0}))
    → Action GuaranteesDb (Unit {0})
unless_settled none m = pure tt
unless_settled (some g) m = if_then (not (is_settled g.status)) (m g)

abbrev pub release_whole : ℕ → BookingGuarantee → BookingGuarantee
release_whole now g = record g {
  status = guarantee_released;
  released_at = some now;
  remaining_guaranteed_cents = pos 0;
}

-- `releaseEntirely`
unfoldable pub release_entirely : ℕ → ℕ → Action GuaranteesDb (Unit {0})
release_entirely now booking = do
  found ← gets (find_by_booking_id booking)
  unless_settled found (λ g. do
    with_hold (hold_of g.type g.wallet_hold_id) (release_hold now)
    mark_status booking (release_whole now))

abbrev pub release_now : ℕ → BookingGuarantee → BookingGuarantee
release_now now g = record g { status = guarantee_released; released_at = some now }

-- The new status by what remains of the guarantee `updated`
abbrev pub share_mark : ℕ → BookingGuarantee → BookingGuarantee → BookingGuarantee
share_mark now updated =
    if updated.remaining_guaranteed_cents ==ℤ pos 0
    then release_now now
    else set_status partially_released

-- `releaseForPaidShare` after the amount was taken off the guarantee, which is read again
abbrev pub follow_release : ℕ → ℕ → ℤ → Option BookingGuarantee → Action GuaranteesDb (Unit {0})
follow_release now booking amount none = pure tt
follow_release now booking amount (some updated) = do
  with_hold (hold_of updated.type updated.wallet_hold_id)
      (λ hold. release_hold_partially now hold (integer amount))
  mark_status booking (share_mark now updated)

-- `releaseForPaidShare` after the first look at the guarantee
unfoldable pub release_share : ℕ → ℕ → ℤ → Action GuaranteesDb (Unit {0})
unfolding release_amount
release_share now booking amount = do
  taken ← from_update (release_amount booking amount)
  updated ← gets (find_by_booking_id booking)
  if_then taken (follow_release now booking amount updated)

-- `releaseForPaidShare`
unfoldable pub release_for_paid_share : ℕ → ℕ → ℤ → Action GuaranteesDb (Unit {0})
unfolding release_share
release_for_paid_share now booking amount = do
  found ← gets (find_by_booking_id booking)
  unless_settled found (λ _. release_share now booking amount)

-- Where the rest of a guarantee is taken from
pub data Source : Type 0 where
  from_hold from_card : ℕ → Source
  from_nothing : Source

abbrev pub source_of : BookingGuaranteeType → Option ℕ → Option ℕ → Source
source_of wallet_reserve (some hold) method = from_hold hold
source_of wallet_reserve none method = from_nothing
source_of card_off_session hold (some method) = from_card method
source_of card_off_session hold none = from_nothing

abbrev pub capture_failed : Error
capture_failed = app_error guarantee_capture_failed 402

abbrev pub fail_capture : ℕ → Action GuaranteesDb (Unit {0})
fail_capture booking = do mark_status booking (set_status guarantee_failed); raise capture_failed

abbrev pub require_success : ℕ → PaymentIntentStatus → Action GuaranteesDb (Unit {0})
require_success booking succeeded = pure tt
require_success booking _ = fail_capture booking

-- The rest of the charge, by the status that the provider answered
abbrev pub settle_status :
    PaymentProvider → ℕ → ℕ → PaymentIntentStatus → Action GuaranteesDb (Unit {0})
settle_status provider booking id requires_capture = do
  answer ← on_payments (ask (capture_request id) (provider.confirm_or_capture id))
  require_success booking answer.status
settle_status provider booking id requires_action = require_success booking requires_action
settle_status provider booking id succeeded = require_success booking succeeded
settle_status provider booking id refused = require_success booking refused
settle_status provider booking id canceled = require_success booking canceled

abbrev pub guarantee_charge : ℕ → ℕ → ℕ → ℤ → PaymentInput
guarantee_charge booking customer method amount = record {
  customer_id = customer;
  payment_method_id = method;
  amount_cents = amount;
  idempotency_key = for_guarantee_capture booking;
}

unfoldable pub charge_card : PaymentProvider → ℕ → Option ℕ → ℕ → ℤ → Action GuaranteesDb (Unit {0})
charge_card provider booking none method amount = raise (app_error validation_failed 500)
charge_card provider booking (some customer) method amount = do
  let input = guarantee_charge booking customer method amount
  authorized ← on_payments (ask (saved_method_request input) (provider.charge_saved_method input))
  settle_status provider booking authorized.provider_payment_id authorized.status

abbrev pub take_from :
    PaymentProvider → ℕ → ℕ → Option ℕ → ℤ → Source → Action GuaranteesDb (Unit {0})
take_from provider now booking customer amount (from_hold hold) = on_wallet (capture_hold now hold)
take_from provider now booking customer amount (from_card method) =
    charge_card provider booking customer method amount
take_from provider now booking customer amount from_nothing = pure tt

unfoldable pub take_rest :
    PaymentProvider → ℕ → ℕ → Option ℕ → BookingGuarantee → Action GuaranteesDb (Unit {0})
unfolding charge_card
take_rest provider now booking customer g =
    take_from provider now booking customer g.remaining_guaranteed_cents
      (source_of g.type g.wallet_hold_id g.payment_method_id)

abbrev pub consume : BookingGuarantee → BookingGuarantee
consume g = record g { status = consumed; remaining_guaranteed_cents = pos 0 }

abbrev pub has_nothing_left : BookingGuarantee → Bool
has_nothing_left g = is_settled g.status || (g.remaining_guaranteed_cents ==ℤ pos 0)

-- `captureRemaining` of a guarantee that has something left
unfoldable pub capture_rest :
    PaymentProvider → ℕ → ℕ → Option ℕ → BookingGuarantee → Action GuaranteesDb ℤ
unfolding take_rest
capture_rest provider now booking customer g = do
  take_rest provider now booking customer g
  mark_status booking consume
  pure g.remaining_guaranteed_cents

abbrev pub capture_found :
    PaymentProvider → ℕ → ℕ → Option ℕ → Option BookingGuarantee → Action GuaranteesDb ℤ
capture_found provider now booking customer none s = (ok (pos 0), s)
capture_found provider now booking customer (some g) s =
    if has_nothing_left g then (ok (pos 0), s) else capture_rest provider now booking customer g s

-- `captureRemaining`, its `capturedCents`
unfoldable pub capture_remaining : PaymentProvider → ℕ → ℕ → Option ℕ → Action GuaranteesDb ℤ
unfolding capture_rest
capture_remaining provider now booking customer = do
  found ← gets (find_by_booking_id booking)
  capture_found provider now booking customer found
