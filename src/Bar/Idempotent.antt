-- ===== src/Bar/Idempotent.antt =====
-- A payment is recorded once for each idempotency key, and reversed once.
use Prim.Native.String.{String}
use ardenne_padel_v.Prelude.{
  Bool-cases, ok, err, Text, blank, filled, ℕ, ◌≡◌, refl, ◌≢◌, ◌⊎◌, inl, inr, true, false, none,
  some,
}
use ardenne_padel_v.Prelude.Action.{◌>>=◌}
use ardenne_padel_v.Bar.Store.{
  NextorePaymentStatus, pending, recorded, failed, reversed, NextorePayment, BarDb, validation,
  is_recorded, is_reversed,
}
use ardenne_padel_v.Bar.Payments.{
  RecordPaymentInput, find_by_idempotency_key, find_payment, record_payment, reverse,
  reverse_payment,
}

-- A call of `recordPayment` with a key that is known returns the payment of that key and changes
-- nothing, whatever else it asks for.
pub record_payment_known :
    (input : RecordPaymentInput) (db : BarDb) {payment : NextorePayment}
    → find_by_idempotency_key input.idempotency_key db ≡ some payment
    → record_payment input db ≡ (ok (record { payment = payment; change_cents = none }), db)
unfolding record_payment
record_payment_known input db h = rw (◌>>=◌, h)

module _ (now id : ℕ) (text : String) (reversed_by : ℕ) (db : BarDb) {p : NextorePayment}
    (found : find_payment id db ≡ some p) where
  reverse-again :
      is_reversed p.status ≡ true
      → reverse_payment now id (filled text) reversed_by db ≡ (ok tt, db)
  unfolding reverse_payment
  reverse-again done = rw (◌>>=◌, found, done)

  reverse-other :
      is_reversed p.status ≡ false
      → is_recorded p.status ≡ false
      → reverse_payment now id (filled text) reversed_by db ≡ (err validation, db)
  unfolding reverse_payment reverse
  reverse-other other unpaid = rw (◌>>=◌, found, other, unpaid)

is_reversed→eq : (s : NextorePaymentStatus) → is_reversed s ≡ true → s ≡ reversed
is_reversed→eq reversed t = refl
is_reversed→eq pending t = cc
is_reversed→eq recorded t = cc
is_reversed→eq failed t = cc

unsettled :
    (s : NextorePaymentStatus)
    → is_recorded s ≡ false
    → is_reversed s ≡ false
    → (s ≡ pending) ⊎ (s ≡ failed)
unsettled pending a b = inl refl
unsettled failed a b = inr refl
unsettled recorded a b = cc
unsettled reversed a b = cc

not_recorded : (s : NextorePaymentStatus) → s ≢ recorded → is_recorded s ≡ false
not_recorded pending ne = refl
not_recorded recorded ne = absurd (ne refl)
not_recorded failed ne = refl
not_recorded reversed ne = refl

-- `reversePayment` of a payment that is not RECORDED changes nothing: with a reason it succeeds on
-- one that is REVERSED, and throws VALIDATION_FAILED on one that is PENDING or FAILED; without a
-- reason it throws VALIDATION_FAILED.
pub reverse_payment_guarded :
    (now id : ℕ) (reason : Text) (reversed_by : ℕ) (db : BarDb) {p : NextorePayment}
    → find_payment id db ≡ some p
    → p.status ≢ recorded
    → let r = reverse_payment now id reason reversed_by db in
      ((reason ≡ blank) × (r ≡ (err validation, db)))
      ⊎ ((text : String) × (reason ≡ filled text)
          × (((p.status ≡ reversed) × (r ≡ (ok tt, db)))
              ⊎ (((p.status ≡ pending) ⊎ (p.status ≡ failed)) × (r ≡ (err validation, db)))))
reverse_payment_guarded now id blank reversed_by db found unpaid =
    unfold reverse_payment in inl (refl, refl)
reverse_payment_guarded now id (filled text) reversed_by db {p} found unpaid =
    let off = not_recorded p.status unpaid in
    elim (Bool-cases (is_reversed p.status)) [
      | inl done ↦ inr (
        text,
        refl,
        inl (is_reversed→eq p.status done, reverse-again now id text reversed_by db found done),
      )
      | inr other ↦ inr (
        text,
        refl,
        inr (
          unsettled p.status off other,
          reverse-other now id text reversed_by db found other off,
        ),
      )
    ]
