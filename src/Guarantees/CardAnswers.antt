-- ===== src/Guarantees/CardAnswers.antt =====
-- The payment provider's answers for a saved card, and what it means that a guarantee is captured
-- from one (booking-guarantee.service.ts).
use ardenne_padel_v.Guarantees.Store.{
  consumed, BookingGuarantee, GuaranteesDb, find_by_booking_id, is_settled,
}
use ardenne_padel_v.Prelude.{
  All, ℤ, Error, Result, ok, err, ℕ, ◌≡◌, refl, ◌≢◌, ◌⊎◌, inl, inr, false, some, List, ◌∷◌, ◌++◌,
}
use ardenne_padel_v.Payments.{
  PaymentIntentStatus, requires_action, requires_capture, succeeded, refused, canceled, PaymentRef,
  PaymentInput, ProviderRequest, saved_method_request, capture_request, PaymentProvider,
}
use ardenne_padel_v.Guarantees.{fail_capture, require_success, settle_status}
use ardenne_padel_v.Guarantees.Settled.{EndsAs}

-- The provider has taken the money: at once, or by a capture after its authorization.
abbrev pub HasPaid : PaymentProvider → PaymentInput → Type 0
HasPaid provider input =
    (ref : PaymentRef) × (provider.charge_saved_method input ≡ ok ref)
    × ((ref.status ≡ succeeded)
        ⊎ ((ref.status ≡ requires_capture)
            × ((ref' : PaymentRef) × (provider.confirm_or_capture ref.provider_payment_id ≡ ok ref')
                × (ref'.status ≡ succeeded))))

abbrev pub IsCapture : ProviderRequest → Type 0
IsCapture request = (id : ℕ) × (request ≡ capture_request id)

-- The capture has succeeded and the provider was paid, or neither; money is asked for once, and
-- only the guarantee's own row and the list of requests may change.
pub record CardCaptured (provider : PaymentProvider) (booking : ℕ) (input : PaymentInput)
    (g : BookingGuarantee) (db : GuaranteesDb) (r : Result ℤ) (db' : GuaranteesDb) : Type 0 where
  pub wallet_kept : db'.wallet ≡ db.wallet
  pub asked_once :
      (more : List ProviderRequest) × (db'.payments.requests
        ≡ more ++ (saved_method_request input ∷ db.payments.requests))
      × All IsCapture more
  pub outcome :
      ((r ≡ ok g.remaining_guaranteed_cents) × HasPaid provider input × EndsAs booking consumed db')
      ⊎ (((e : Error) × (r ≡ err e))
          × ¬ HasPaid provider input
          × ((g' : BookingGuarantee) × (find_by_booking_id booking db' ≡ some g')
              × (g'.remaining_guaranteed_cents ≡ g.remaining_guaranteed_cents)
              × (is_settled g'.status ≡ false)))

pub Result-cases :
    {A : Type 0} (r : Result A) → ((a : A) × (r ≡ ok a)) ⊎ ((e : Error) × (r ≡ err e))
Result-cases (ok a) = inl (a, refl)
Result-cases (err e) = inr (e, refl)

pub status-cases :
    (s : PaymentIntentStatus)
    → (s ≡ succeeded) ⊎ ((s ≡ requires_capture) ⊎ ((s ≢ succeeded) × (s ≢ requires_capture)))
status-cases requires_action = inr (inr (λ e. cc, λ e. cc))
status-cases requires_capture = inr (inl refl)
status-cases succeeded = inl refl
status-cases refused = inr (inr (λ e. cc, λ e. cc))
status-cases canceled = inr (inr (λ e. cc, λ e. cc))

pub not_succeeded :
    (s : PaymentIntentStatus)
    → (s ≡ requires_capture) ⊎ ((s ≢ succeeded) × (s ≢ requires_capture))
    → s ≢ succeeded
not_succeeded s (inl e) = λ e'. cc (e, e')
not_succeeded s (inr h) = h.0

pub require_success-failed :
    (booking : ℕ) (s : PaymentIntentStatus)
    → s ≢ succeeded
    → require_success booking s ≡ fail_capture booking
require_success-failed booking requires_action ne = refl
require_success-failed booking requires_capture ne = refl
require_success-failed booking succeeded ne = absurd (ne refl)
require_success-failed booking refused ne = refl
require_success-failed booking canceled ne = refl

pub settle_status-failed :
    (provider : PaymentProvider) (booking id : ℕ) (s : PaymentIntentStatus)
    → s ≢ succeeded
    → s ≢ requires_capture
    → settle_status provider booking id s ≡ fail_capture booking
settle_status-failed provider booking id requires_action ne ne' = refl
settle_status-failed provider booking id requires_capture ne ne' = absurd (ne' refl)
settle_status-failed provider booking id succeeded ne ne' = absurd (ne refl)
settle_status-failed provider booking id refused ne ne' = refl
settle_status-failed provider booking id canceled ne ne' = refl
