-- ===== src/Shares/Once.antt =====
-- `payShare` in whole, and a second payment of the same share (booking-share.service.ts).
use ardenne_padel_v.Shares.Refusals.{IsLinkValid, IsRefused, pay_expired, pay_paid, pay_branches}
use ardenne_padel_v.Guarantees.Store.{GuaranteesDb}
use ardenne_padel_v.Shares.Store.{
  share_open, share_invited, payment_pending, share_paid, BookingShareFundingSource, BookingShare,
  SharesDb, find_share_by_id, has_token, find_by_token_hash, is_payable, is_share_paid,
  set_share_status,
}
use ardenne_padel_v.Shares.Rows.{share_key, transition_miss}
use ardenne_padel_v.Prelude.{
  if◌then◌else◌, Bool-cases, invitation_expired, Error, app_error, Result, ok, err, then_answer, ℕ,
  ◌≡◌, refl, ap, ◌⊎◌, inl, inr, true, false, Option, some,
}
use ardenne_padel_v.Payments.{PaymentProvider}
use ardenne_padel_v.Shares.{
  has_expired, Evidence, take_money, written, paid_with, already_paid, pay_found, pay_share,
}
use ardenne_padel_v.Prelude.Action.{Action}
use ardenne_padel_v.Prelude.Keyed.{IsKeyed, find_by-key}
use ardenne_padel_v.Shares.Paid.{Restored, IsSettled, pay_found_lem}
use ardenne_padel_v.Guarantees.{release_for_paid_share}

-- What the share has after a payment: its payer, source and time, and everything else of an
-- invitation as it was
abbrev pub IsPaidAs :
    ℕ → ℕ → BookingShareFundingSource → Evidence → BookingShare → BookingShare → Type 0
IsPaidAs now payer source evidence share paid =
    (paid.status ≡ share_paid)
    × (paid.funding_source ≡ some source)
    × (paid.paid_by_user_id ≡ some payer)
    × (paid.paid_at ≡ some now)
    × (paid.id ≡ share.id)
    × (paid.booking_id ≡ share.booking_id)
    × (paid.total_amount_cents ≡ share.total_amount_cents)
    × (paid.payment_id ≡ written evidence.payment_id share.payment_id)
    × (paid.wallet_transaction_id ≡ written evidence.wallet_ref share.wallet_transaction_id)

-- The payment step has answered: the row is paid, and the organiser's guarantee is released. An
-- exception of the release is thrown on.
abbrev pub PaysShare :
    ℕ
    → ℕ
    → ℕ
    → BookingShareFundingSource
    → BookingShare
    → Action GuaranteesDb Evidence
    → SharesDb
    → Result (Option BookingShare) × SharesDb
    → Type 0
PaysShare now payer hash source share money db (r, db') =
    let released =
      release_for_paid_share now share.booking_id share.total_amount_cents (money db.base).1 in
    (evidence : Evidence) × (paid : BookingShare) × ((money db.base).0 ≡ ok evidence)
    × IsPaidAs now payer source evidence share paid
    × (find_by_token_hash hash db' ≡ some paid)
    × (db'.base ≡ released.1)
    × (r ≡ then_answer released.0 (some paid))

-- For the share that a token belongs to, where no two shares have the same id: `payShare` throws and
-- changes nothing exactly if the link has expired, or the share is PAID, or it is neither OPEN nor
-- INVITED. Otherwise it runs the payment step, from the wallet or by card. If the step throws,
-- `payShare` throws the same, what the step has written stays, and the share is as it was before. If
-- the step answers, the share is paid by this payer, from this source and at this time, and the
-- organiser's guarantee is released by its amount.
pub pay_share_lem :
    (provider : PaymentProvider) (now hash payer : ℕ) (source : BookingShareFundingSource)
    (method : Option ℕ) (share : BookingShare) (db : SharesDb)
    → find_by_token_hash hash db ≡ some share
    → IsKeyed share_key db.shares
    → let r = pay_share provider now hash payer source method db in
      let money = take_money provider payer source method share in
      IsRefused now share db r
      ⊎ (IsLinkValid now share
          × ((share.status ≡ share_open) ⊎ (share.status ≡ share_invited))
          × (Restored now payer hash source share money db r
              ⊎ PaysShare now payer hash source share money db r))
pay_share_lem provider now hash payer source method share db found keyed =
    elim (pay_branches provider now hash payer source method share db found) [
      | inl thrown ↦ inl thrown
      | inr (valid, status, c, e) ↦ inr (
        valid,
        status,
        rw e (elim (pay_found_lem provider now hash payer source method share db keyed found c) [
          | inl back ↦ inl back
          | inr done ↦ inr (
            done.evidence,
            paid_with now payer source done.evidence share,
            done.step,
            (refl, refl, refl, refl, refl, refl, refl, refl, refl),
            done.paid,
            done.released,
            done.answer,
          )
        ]),
      )
    ]

-- A request that has read a share before another one claimed or paid it
pub late_request :
    (provider : PaymentProvider) (now payer : ℕ) (source : BookingShareFundingSource)
    (method : Option ℕ) (old current : BookingShare) (db : SharesDb)
    → IsKeyed share_key db.shares
    → find_share_by_id current.id db ≡ some current
    → old.id ≡ current.id
    → is_payable current.status ≡ false
    → pay_found provider now payer source method old db ≡ (err already_paid, db)
unfolding pay_found
late_request provider now payer source method old current db keyed found same off =
    let missed =
      transition_miss is_payable (set_share_status payment_pending) db {x = current} keyed found
        off in
    rw (same, missed)

-- The exception for a share that has been paid
abbrev pub paid_refusal : ℕ → BookingShare → Error
paid_refusal now share =
    if has_expired now share.invitation_expires_at
    then app_error invitation_expired 410
    else already_paid

again_refused :
    (provider : PaymentProvider) (now hash payer : ℕ) (source : BookingShareFundingSource)
    (method : Option ℕ) (share : BookingShare) (db : SharesDb)
    → find_by_token_hash hash db ≡ some share
    → is_share_paid share.status ≡ true
    → pay_share provider now hash payer source method db ≡ (err (paid_refusal now share), db)
again_refused provider now hash payer source method share db found paid =
    elim (Bool-cases (has_expired now share.invitation_expires_at)) [
      | inl e ↦ rw e (pay_expired provider now hash payer source method share db found e)
      | inr e ↦ rw e (pay_paid provider now hash payer source method share db found e paid)
    ]

no_answer :
    (now : ℕ) (share : BookingShare) (db : SharesDb) {answer : Option BookingShare}
    (r : Result (Option BookingShare) × SharesDb)
    → IsRefused now share db r
    → ¬ (r.0 ≡ ok answer)
no_answer now share db r (inl (_, e)) h = cc (ap (λ x. x.0) e, h)
no_answer now share db r (inr (inl (_, _, e))) h = cc (ap (λ x. x.0) e, h)
no_answer now share db r (inr (inr (_, _, e))) h = cc (ap (λ x. x.0) e, h)

-- For the share that a token belongs to, where no two shares have the same id: once a `payShare` has
-- succeeded, a further one with this token throws and changes nothing, for any payer and source, at
-- any time: it says that the link has expired, or that the share is paid. So does one that had read the share before the first began.
pub paid_once :
    (provider other_provider : PaymentProvider) (now hash payer now' payer' : ℕ)
    (source source' : BookingShareFundingSource) (method method' : Option ℕ) (share : BookingShare)
    (answer : Option BookingShare) (db : SharesDb)
    → find_by_token_hash hash db ≡ some share
    → IsKeyed share_key db.shares
    → (pay_share provider now hash payer source method db).0 ≡ ok answer
    → let (_, db') = pay_share provider now hash payer source method db in
      (pay_share other_provider now' hash payer' source' method' db'
        ≡ (err (paid_refusal now' share), db'))
      × (pay_found other_provider now' payer' source' method' share db' ≡ (err already_paid, db'))
paid_once provider other_provider now hash payer now' payer' source source' method method' share
      answer db found keyed e =
    elim (pay_branches provider now hash payer source method share db found) [
      | inl thrown ↦ absurd (no_answer now share db _ thrown e)
      | inr (_, _, payable, eq) ↦
          let money = take_money provider payer source method share in
          let r = pay_share provider now hash payer source method db in
          let outcome : Restored now payer hash source share money db r
              ⊎ IsSettled now payer hash source share money db r =
            rw eq
              (pay_found_lem provider now hash payer source method share db keyed found payable) in
          elim outcome [
            | inl back ↦ cc (let no : err back.thrown ≡ ok answer = rw back.answer at e in no)
            | inr done ↦
                let paid = paid_with now payer source done.evidence share in
                (
                  again_refused other_provider now' hash payer' source' method' paid r.1 done.paid
                      refl,
                  late_request other_provider now' payer' source' method' share paid r.1
                      done.still_keyed
                      (find_by-key share_key (has_token hash) r.1.shares done.still_keyed done.paid)
                      refl refl,
                )
          ]
    ]
