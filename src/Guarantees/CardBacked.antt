-- ===== src/Guarantees/CardBacked.antt =====
-- A guarantee that is a saved card: what `captureRemaining` (booking-guarantee.service.ts) makes of
-- the payment provider's answers.
use ardenne_padel_v.Guarantees.Store.{
  BookingGuarantee, GuaranteesDb, find_by_booking_id, is_settled,
}
use ardenne_padel_v.Prelude.{pos, ◌==ℤ◌, Result, ℕ, ◌≡◌, false, some, List, ◌∷◌, ◌++◌}
use ardenne_padel_v.Payments.{PaymentInput, ProviderRequest, saved_method_request, PaymentProvider}
use ardenne_padel_v.Guarantees.{
  from_card, source_of, guarantee_charge, charge_card, capture_remaining,
}
use ardenne_padel_v.Guarantees.CardAnswers.{CardCaptured}

module _ (provider : PaymentProvider) (now booking customer method : ℕ) (g : BookingGuarantee)
    (db : GuaranteesDb) (found : find_by_booking_id booking db ≡ some g)
    (unsettled : is_settled g.status ≡ false)
    (left : (g.remaining_guaranteed_cents ==ℤ pos 0) ≡ false)
    (card : source_of g.type g.wallet_hold_id g.payment_method_id ≡ from_card method) where
  abbrev input : PaymentInput
  input = guarantee_charge booking customer method g.remaining_guaranteed_cents

  abbrev charge : Result (Unit {0}) × GuaranteesDb
  charge = charge_card provider booking (some customer) method g.remaining_guaranteed_cents db

  abbrev with_requests : List ProviderRequest → GuaranteesDb
  with_requests more = record db {
    payments = record db.payments {
      requests = more ++ (saved_method_request input ∷ db.payments.requests);
    };
  }

  abbrev Captured : Type 0
  Captured =
      let (r, db') = capture_remaining provider now booking (some customer) db in
      CardCaptured provider booking input g db r db'
