-- ===== src/Shares/Refusals.antt =====
-- What `payShare` refuses before it claims a share (booking-share.service.ts).
use ardenne_padel_v.Shares.Store.{
  BookingShareStatus, share_open, share_invited, payment_pending, share_paid, covered_by_organizer,
  share_canceled, share_refunded, BookingShareFundingSource, BookingShare, SharesDb,
  find_by_token_hash, is_payable, is_share_paid,
}
use ardenne_padel_v.Prelude.{
  true≢false, Bool-cases, validation_failed, invitation_expired, app_error, Result, ok, err, ℕ, ◌≤◌,
  ◌<◌, ◌≡◌, refl, sym, ap, ◌∙◌, ◌≢◌, ◌⊎◌, inl, inr, true, false, Option, none, some, arith,
}
use ardenne_padel_v.Payments.{PaymentProvider}
use ardenne_padel_v.Shares.{has_expired, get_share_by_token, already_paid, pay_found, pay_share}
use ardenne_padel_v.Prelude.Action.{◌>>=◌}

-- The link of a share has no end, or one that has not passed.
abbrev pub IsLinkValid : ℕ → BookingShare → Type 0
IsLinkValid now share =
    (share.invitation_expires_at ≡ none)
    ⊎ ((expires : ℕ) × (share.invitation_expires_at ≡ some expires) × (now ≤ expires))

abbrev pub IsLinkExpired : ℕ → BookingShare → Type 0
IsLinkExpired now share =
    (expires : ℕ) × (share.invitation_expires_at ≡ some expires) × (expires < now)

-- A call throws, before it has written anything, for this reason.
abbrev pub IsRefused :
    ℕ → BookingShare → SharesDb → Result (Option BookingShare) × SharesDb → Type 0
IsRefused now share db r =
    (IsLinkExpired now share × (r ≡ (err (app_error invitation_expired 410), db)))
    ⊎ (IsLinkValid now share × (share.status ≡ share_paid) × (r ≡ (err already_paid, db)))
    ⊎ (IsLinkValid now share
        × ((share.status ≢ share_open)
            × (share.status ≢ share_invited)
            × (share.status ≢ share_paid))
        × (r ≡ (err (app_error validation_failed 409), db)))

expired_at :
    (now : ℕ) (end : Option ℕ)
    → has_expired now end ≡ true
    → (expires : ℕ) × (end ≡ some expires) × (expires < now)
expired_at now none e = cc
expired_at now (some expires) e = (expires, refl, ground arith)

valid_at :
    (now : ℕ) (end : Option ℕ)
    → has_expired now end ≡ false
    → (end ≡ none) ⊎ ((expires : ℕ) × (end ≡ some expires) × (now ≤ expires))
valid_at now none e = inl refl
valid_at now (some expires) e = inr (expires, refl, ground arith)

paid_status : (s : BookingShareStatus) → is_share_paid s ≡ true → s ≡ share_paid
paid_status share_open e = cc
paid_status share_invited e = cc
paid_status payment_pending e = cc
paid_status share_paid e = refl
paid_status covered_by_organizer e = cc
paid_status share_canceled e = cc
paid_status share_refunded e = cc

payable_status :
    (s : BookingShareStatus) → is_payable s ≡ true → (s ≡ share_open) ⊎ (s ≡ share_invited)
payable_status share_open e = inl refl
payable_status share_invited e = inr refl
payable_status payment_pending e = cc
payable_status share_paid e = cc
payable_status covered_by_organizer e = cc
payable_status share_canceled e = cc
payable_status share_refunded e = cc

closed_status :
    (s : BookingShareStatus)
    → is_share_paid s ≡ false
    → is_payable s ≡ false
    → (s ≢ share_open) × (s ≢ share_invited) × (s ≢ share_paid)
closed_status s p c = (
  λ e. true≢false (sym (ap is_payable e) ∙ c),
  λ e. true≢false (sym (ap is_payable e) ∙ c),
  λ e. true≢false (sym (ap is_share_paid e) ∙ p),
)

module _ (provider : PaymentProvider) (now hash payer : ℕ) (source : BookingShareFundingSource)
    (method : Option ℕ) (share : BookingShare) (db : SharesDb)
    (found : find_by_token_hash hash db ≡ some share) where
  abbrev paying : Result (Option BookingShare) × SharesDb
  paying = pay_share provider now hash payer source method db

  link_expired :
      has_expired now share.invitation_expires_at ≡ true
      → get_share_by_token now hash db ≡ (err (app_error invitation_expired 410), db)
  unfolding get_share_by_token
  link_expired e = rw (found, ◌>>=◌, e)

  link_valid :
      has_expired now share.invitation_expires_at ≡ false
      → get_share_by_token now hash db ≡ (ok share, db)
  unfolding get_share_by_token
  link_valid e = rw (found, ◌>>=◌, e)

  pub pay_expired :
      has_expired now share.invitation_expires_at ≡ true
      → paying ≡ (err (app_error invitation_expired 410), db)
  unfolding pay_share
  pay_expired e = rw (link_expired e, ◌>>=◌, link_expired e)

  pub pay_paid :
      has_expired now share.invitation_expires_at ≡ false
      → is_share_paid share.status ≡ true
      → paying ≡ (err already_paid, db)
  unfolding pay_share
  pay_paid e p = rw (link_valid e, ◌>>=◌, p, link_valid e)

  pay_closed :
      has_expired now share.invitation_expires_at ≡ false
      → is_share_paid share.status ≡ false
      → is_payable share.status ≡ false
      → paying ≡ (err (app_error validation_failed 409), db)
  unfolding pay_share
  pay_closed e p c = rw (link_valid e, ◌>>=◌, p, ◌>>=◌, c, link_valid e)

  pay_open :
      has_expired now share.invitation_expires_at ≡ false
      → is_share_paid share.status ≡ false
      → is_payable share.status ≡ true
      → paying ≡ pay_found provider now payer source method share db
  unfolding pay_share
  pay_open e p c = rw (link_valid e, ◌>>=◌, p, ◌>>=◌, c, link_valid e)

  pub pay_branches :
      IsRefused now share db paying
      ⊎ (IsLinkValid now share
          × ((share.status ≡ share_open) ⊎ (share.status ≡ share_invited))
          × (is_payable share.status ≡ true)
          × (paying ≡ pay_found provider now payer source method share db))
  pay_branches = elim (Bool-cases (has_expired now share.invitation_expires_at)) [
    | inl e ↦ inl (inl (expired_at now share.invitation_expires_at e, pay_expired e))
    | inr e ↦
        let valid = valid_at now share.invitation_expires_at e in
        elim (Bool-cases (is_share_paid share.status)) [
          | inl p ↦ inl (inr (inl (valid, paid_status share.status p, pay_paid e p)))
          | inr p ↦ elim (Bool-cases (is_payable share.status)) [
            | inl c ↦ inr (valid, payable_status share.status c, c, pay_open e p c)
            | inr c ↦ inl (inr (inr (valid, closed_status share.status p c, pay_closed e p c)))
          ]
        ]
  ]
