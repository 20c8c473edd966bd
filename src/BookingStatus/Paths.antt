-- ===== src/BookingStatus/Paths.antt =====
-- The lives of a booking: sequences of steps that `assertTransition` lets pass. The services also write
-- states without that test, which is no part of these sequences.
use ardenne_padel_v.Prelude.{
  true≢false, Bool-cases, any_by, ok, ◌≡◌, refl, sym, ap, ◌∙◌, ◌↔◌, ◌⊎◌, inl, inr, Bool, true,
  false, List, [], ◌∷◌, arith,
}
use ardenne_padel_v.BookingStatus.{
  BookingStatus, draft, checkout_pending, legacy_hold_pending, payment_pending, confirmed,
  cancel_pending, canceled, completed, failed, manual_review, transitions, same_status,
  can_transition, assert_transition, is_terminal_status,
}

-- A sequence of allowed steps, with the states that it enters.
pub data Lives : BookingStatus → List BookingStatus → BookingStatus → Type 0 where
  stay : {s : BookingStatus} → Lives s [] s
  step :
      {s t u : BookingStatus} {entered : List BookingStatus}
      → assert_transition s t ≡ ok tt
      → Lives t entered u
      → Lives s (t ∷ entered) u

-- Where a booking can be without ever having been confirmed.
abbrev unconfirmed : BookingStatus → Bool
unconfirmed confirmed = false
unconfirmed cancel_pending = false
unconfirmed completed = false
unconfirmed _ = true

step-unconfirmed :
    (s t : BookingStatus)
    → assert_transition s t ≡ ok tt
    → unconfirmed s ≡ true
    → same_status t confirmed ≡ false
    → unconfirmed t ≡ true
unfolding assert_transition can_transition transitions
step-unconfirmed s t h u n = ground arith

abbrev pub is_confirmed : BookingStatus → Bool
is_confirmed s = same_status s confirmed

life-unconfirmed :
    {s u : BookingStatus} {entered : List BookingStatus}
    → Lives s entered u
    → unconfirmed s ≡ true
    → any_by is_confirmed entered ≡ false
    → unconfirmed u ≡ true
life-unconfirmed stay h n = h
life-unconfirmed (step {s} {t} e rest) h n =
    life-unconfirmed rest (step-unconfirmed s t e h (ground arith)) (ground arith)

-- Every sequence of steps that `assertTransition` lets pass, from a draft to COMPLETED or to
-- CANCEL_PENDING, enters CONFIRMED.
pub completed-after-confirmed :
    (u : BookingStatus) {entered : List BookingStatus}
    → Lives draft entered u
    → (u ≡ completed) ⊎ (u ≡ cancel_pending)
    → any_by is_confirmed entered ≡ true
completed-after-confirmed u {entered} life end = elim (Bool-cases (any_by is_confirmed entered)) [
  | inl e ↦ e
  | inr e ↦
      let never = life-unconfirmed life refl e in
      elim end [
        | inl same ↦ absurd (true≢false (sym never ∙ ap unconfirmed same))
        | inr same ↦ absurd (true≢false (sym never ∙ ap unconfirmed same))
      ]
]

differ : (s t : BookingStatus) → s ≡ t → ¬ (same_status s t ≡ false)
differ s t e n = ground arith

no_step : (s t : BookingStatus) → is_terminal_status s ≡ true → ¬ (assert_transition s t ≡ ok tt)
unfolding assert_transition can_transition transitions is_terminal_status
no_step s t h e = ground arith

stays :
    {s u : BookingStatus} {entered : List BookingStatus}
    → is_terminal_status s ≡ true
    → Lives s entered u
    → u ≡ s
stays h stay = refl
stays h (step {s} {t} e rest) = absurd (no_step s t h e)

must_end :
    (s : BookingStatus)
    → ((entered : List BookingStatus) (u : BookingStatus) → Lives s entered u → u ≡ s)
    → is_terminal_status s ≡ true
unfolding is_terminal_status transitions assert_transition can_transition
must_end draft only = absurd (differ failed draft (only _ failed (step refl stay)) refl)
must_end checkout_pending only =
    absurd (differ failed checkout_pending (only _ failed (step refl stay)) refl)
must_end legacy_hold_pending only =
    absurd (differ failed legacy_hold_pending (only _ failed (step refl stay)) refl)
must_end payment_pending only =
    absurd (differ failed payment_pending (only _ failed (step refl stay)) refl)
must_end confirmed only =
    absurd (differ completed confirmed (only _ completed (step refl stay)) refl)
must_end cancel_pending only =
    absurd (differ canceled cancel_pending (only _ canceled (step refl stay)) refl)
must_end manual_review only =
    absurd (differ failed manual_review (only _ failed (step refl stay)) refl)
must_end canceled only = refl
must_end completed only = refl
must_end failed only = refl

-- `isTerminalStatus` holds exactly of the states that a booking cannot leave.
pub is_terminal_status_lem :
    (s : BookingStatus)
    → (is_terminal_status s ≡ true)
      ↔ ((entered : List BookingStatus) (u : BookingStatus) → Lives s entered u → u ≡ s)
is_terminal_status_lem s = (λ h entered u life. stays h life, λ only. must_end s only)

-- Every state can be reached from a draft, and from every state the booking can be brought to an
-- end.
pub every_status-Lives :
    (s : BookingStatus)
    → ((entered : List BookingStatus) × Lives draft entered s)
      × ((entered : List BookingStatus) × (u : BookingStatus) × Lives s entered u
          × (is_terminal_status u ≡ true))
unfolding is_terminal_status transitions assert_transition can_transition
every_status-Lives draft = ((_, stay), (_, failed, step refl stay, refl))
every_status-Lives checkout_pending = ((_, step refl stay), (_, failed, step refl stay, refl))
every_status-Lives legacy_hold_pending =
    ((_, step {t = checkout_pending} refl (step refl stay)), (_, failed, step refl stay, refl))
every_status-Lives payment_pending =
    ((_, step {t = checkout_pending} refl (step refl stay)), (_, failed, step refl stay, refl))
every_status-Lives confirmed = (
  (_, step {t = checkout_pending} refl (step {t = payment_pending} refl (step refl stay))),
  (_, completed, step refl stay, refl),
)
every_status-Lives cancel_pending = (
  (
    _,
    step {t = checkout_pending} refl
        (step {t = payment_pending} refl (step {t = confirmed} refl (step refl stay))),
  ),
  (_, canceled, step refl stay, refl),
)
every_status-Lives canceled = (
  (_, step {t = checkout_pending} refl (step {t = manual_review} refl (step refl stay))),
  (_, canceled, stay, refl),
)
every_status-Lives completed = (
  (
    _,
    step {t = checkout_pending} refl
        (step {t = payment_pending} refl (step {t = confirmed} refl (step refl stay))),
  ),
  (_, completed, stay, refl),
)
every_status-Lives failed = ((_, step refl stay), (_, failed, stay, refl))
every_status-Lives manual_review =
    ((_, step {t = checkout_pending} refl (step refl stay)), (_, failed, step refl stay, refl))
