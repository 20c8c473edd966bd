-- ===== src/BookingStatus.antt =====
-- apps/api/src/modules/bookings/booking-state-machine.ts: the states of a booking.
pub mod Paths
mod Tests
use ardenne_padel_v.Prelude.{
  ◌==◌, if◌then◌else◌, length, any_by, plain_error, Result, ok, err, ℕ, Bool, not, List, [], ◌∷◌,
}

pub data BookingStatus : Type 0 where
  draft checkout_pending legacy_hold_pending payment_pending confirmed : BookingStatus
  cancel_pending canceled completed failed manual_review : BookingStatus

-- `TRANSITIONS`
unfoldable pub transitions : BookingStatus → List BookingStatus
transitions draft = checkout_pending ∷ failed ∷ []
transitions checkout_pending = legacy_hold_pending ∷ payment_pending ∷ failed ∷ manual_review ∷ []
transitions legacy_hold_pending = payment_pending ∷ failed ∷ manual_review ∷ []
transitions payment_pending = confirmed ∷ failed ∷ manual_review ∷ []
transitions confirmed = cancel_pending ∷ completed ∷ manual_review ∷ []
transitions cancel_pending = canceled ∷ manual_review ∷ []
transitions canceled = []
transitions completed = []
transitions failed = []
transitions manual_review = confirmed ∷ canceled ∷ failed ∷ []

abbrev pub rank : BookingStatus → ℕ
rank draft = 0
rank checkout_pending = 1
rank legacy_hold_pending = 2
rank payment_pending = 3
rank confirmed = 4
rank cancel_pending = 5
rank canceled = 6
rank completed = 7
rank failed = 8
rank manual_review = 9

-- `a === b`
abbrev pub same_status : BookingStatus → BookingStatus → Bool
same_status a b = rank a == rank b

-- `canTransition`
unfoldable pub can_transition : BookingStatus → BookingStatus → Bool
unfolding transitions
can_transition source target = any_by (λ s. same_status s target) (transitions source)

-- `assertTransition`
unfoldable pub assert_transition : BookingStatus → BookingStatus → Result (Unit {0})
unfolding can_transition
assert_transition source target =
    if not (can_transition source target) then err plain_error else ok tt

-- `isTerminalStatus`
unfoldable pub is_terminal_status : BookingStatus → Bool
unfolding transitions
is_terminal_status status = length (transitions status) == 0
