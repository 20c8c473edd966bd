-- ===== src/BookingStatus/Tests.antt =====
-- Concrete lives of a booking.
use ardenne_padel_v.Prelude.{any_by, ◌≡◌, refl, ◌↔◌, inl, true, List, [], ◌∷◌}
use ardenne_padel_v.BookingStatus.{
  BookingStatus, draft, checkout_pending, payment_pending, confirmed, canceled, completed,
  transitions, can_transition, assert_transition, is_terminal_status,
}
use ardenne_padel_v.BookingStatus.Paths.{
  Lives, stay, step, is_confirmed, completed-after-confirmed, is_terminal_status_lem,
  every_status-Lives,
}

abbrev played : List BookingStatus
played = checkout_pending ∷ payment_pending ∷ confirmed ∷ completed ∷ []

completed-after-confirmed_example : any_by is_confirmed played ≡ true
unfolding assert_transition can_transition transitions
completed-after-confirmed_example =
    completed-after-confirmed completed {entered = played}
      (step refl (step refl (step refl (step refl stay)))) (inl refl)

is_terminal_status_lem_example : (is_terminal_status canceled ≡ true) ↔ (
    (entered : List BookingStatus) (last : BookingStatus)
    → Lives canceled entered last
    → last ≡ canceled)
is_terminal_status_lem_example = is_terminal_status_lem canceled

every_status-Lives_example :
    ((entered : List BookingStatus) × Lives draft entered confirmed)
    × ((entered : List BookingStatus) × (last : BookingStatus) × Lives confirmed entered last
        × (is_terminal_status last ≡ true))
every_status-Lives_example = every_status-Lives confirmed
