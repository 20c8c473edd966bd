-- ===== src/Shares/Paid.antt =====
-- What `payShare` leaves on a share that can be paid (booking-share.service.ts).
use ardenne_padel_v.Guarantees.Store.{GuaranteesDb}
use ardenne_padel_v.Shares.Store.{
  BookingShareStatus, payment_pending, BookingShareFundingSource, BookingShare, SharesDb, on_base,
  is_share, find_share_by_id, has_token, find_by_token_hash, is_payable, is_unpaid,
  set_share_status, claim_for_payment, mark_paid_if_payable, update_share_status,
}
use ardenne_padel_v.Shares.Rows.{share_key, transition_hit, transition_found}
use ardenne_padel_v.Prelude.{
  ==_refl, find_by, update_where, Error, Result, ok, err, then_answer, ℕ, ◌≡◌, refl, ◌∙◌, ◌⊎◌, inl,
  inr, Bool, true, ◌&&◌, Option, some,
}
use ardenne_padel_v.Prelude.Keyed.{find_by-update_where, IsKeyed, update_where-IsKeyed, find_by-key}
use ardenne_padel_v.Shares.{
  Evidence, take_money, paid_with, finish_share, restore_status, take_or_restore, pay_found,
}
use ardenne_padel_v.Prelude.Action.{
  Action, gets, ◌>>=◌, ◌>>◌, bind_ok, bind_err, attempt_err, attempt_ok,
}
use ardenne_padel_v.Payments.{PaymentProvider}
use ardenne_padel_v.Guarantees.{release_for_paid_share}

abbrev pub claimed : BookingShare → SharesDb → SharesDb
claimed share db =
    let hit = λ (s : BookingShare). is_share share.id s && is_payable s.status in
    record db { shares = update_where hit (set_share_status payment_pending) db.shares }

module _ (now payer hash : ℕ) (source : BookingShareFundingSource) (share : BookingShare)
    (money : Action GuaranteesDb Evidence) (db : SharesDb)
    (r : Result (Option BookingShare) × SharesDb) where
  abbrev money_released : GuaranteesDb → Result (Unit {0}) × GuaranteesDb
  money_released base =
      release_for_paid_share now share.booking_id share.total_amount_cents (money base).1

  -- The money step has thrown: what it has written stays, and the share is as it was.
  pub record Restored : Type 0 where
    pub thrown : Error
    pub step : (money db.base).0 ≡ err thrown
    pub answer : r.0 ≡ err thrown
    pub same_base : r.1.base ≡ (money db.base).1
    pub as_before : find_by_token_hash hash r.1 ≡ some share

  -- The money step has answered: the share is paid, and the organiser's guarantee is released.
  pub record IsSettled : Type 0 where
    pub evidence : Evidence
    pub step : (money db.base).0 ≡ ok evidence
    pub released : r.1.base ≡ (money_released db.base).1
    pub answer :
        r.0
        ≡ then_answer (money_released db.base).0 (some (paid_with now payer source evidence share))
    pub paid : find_by_token_hash hash r.1 ≡ some (paid_with now payer source evidence share)
    pub still_keyed : IsKeyed share_key r.1.shares

module _ (provider : PaymentProvider) (now hash payer : ℕ) (source : BookingShareFundingSource)
    (method : Option ℕ) (share : BookingShare) (db : SharesDb) (keyed : IsKeyed share_key db.shares)
    (found : find_by_token_hash hash db ≡ some share)
    (payable : is_payable share.status ≡ true) where
  by_id : find_share_by_id share.id db ≡ some share
  by_id = find_by-key share_key (has_token hash) db.shares keyed found

  claim : claim_for_payment share.id db ≡ (true, claimed share db)
  claim = transition_hit is_payable (set_share_status payment_pending) db keyed by_id payable

  abbrev pending_share : BookingShare
  pending_share = set_share_status payment_pending share

  claimed-IsKeyed : IsKeyed share_key (claimed share db).shares
  claimed-IsKeyed =
      update_where-IsKeyed share_key _ (set_share_status payment_pending) db.shares (λ s. refl)
        keyed

  found_pending :
      (q : BookingShare → Bool)
      → ((s : BookingShare) → q (set_share_status payment_pending s) ≡ q s)
      → find_by q db.shares ≡ some share
      → find_by q (claimed share db).shares ≡ some pending_share
  found_pending q keep f =
      transition_found is_payable (set_share_status payment_pending) db keyed by_id q keep payable f

  abbrev payment_step : Action GuaranteesDb Evidence
  payment_step = take_money provider payer source method share

  abbrev outcome : Result (Option BookingShare) × SharesDb
  outcome = pay_found provider now payer source method share db

  abbrev restored_db : GuaranteesDb → SharesDb
  restored_db t = update_share_status share.id share.status (record (claimed share db) { base = t })

  after_claim :
      {r : Result (Option BookingShare) × SharesDb}
      → (take_or_restore provider payer source method share >>= finish_share now payer source share)
          (claimed share db)
        ≡ r
      → outcome ≡ r
  unfolding pay_found
  after_claim e = rw claim e

  -- The money step as a step on the shares' store
  on_shares :
      (r : Result Evidence) (t : GuaranteesDb)
      → payment_step db.base ≡ (r, t)
      → on_base payment_step (claimed share db) ≡ (r, record (claimed share db) { base = t })
  on_shares r t m = rw m

  thrown_eq :
      (e : Error) (t : GuaranteesDb)
      → payment_step db.base ≡ (err e, t)
      → outcome ≡ (err e, restored_db t)
  unfolding take_or_restore
  thrown_eq e t m = after_claim (
      bind_err (take_or_restore provider payer source method share)
        (finish_share now payer source share)
        (attempt_err (on_base payment_step) (restore_status share) (on_shares (err e) t m)))

  when_thrown :
      (e : Error) (t : GuaranteesDb)
      → payment_step db.base ≡ (err e, t)
      → Restored now payer hash source share payment_step db outcome
  when_thrown e t m = rw (thrown_eq e t m) record {
    thrown = e;
    step = rw m;
    answer = refl;
    same_base = rw m;
    as_before =
        find_by-update_where (has_token hash) (is_share share.id) (set_share_status share.status)
          (claimed share db).shares (λ s. refl) (found_pending (has_token hash) (λ s. refl) found)
        ∙ rw (==_refl share.id);
  }

  abbrev release : Action GuaranteesDb (Unit {0})
  release = release_for_paid_share now share.booking_id share.total_amount_cents

  abbrev mark : Evidence → BookingShare → BookingShare
  mark evidence = paid_with now payer source evidence

  abbrev marked_db : Evidence → GuaranteesDb → SharesDb
  marked_db evidence t =
      let hit = λ (s : BookingShare). is_share share.id s && is_unpaid s.status in
      record { base = t; shares = update_where hit (mark evidence) (claimed share db).shares }

  marked_eq :
      (evidence : Evidence) (t : GuaranteesDb)
      → mark_paid_if_payable share.id (mark evidence) (record (claimed share db) { base = t })
        ≡ (true, marked_db evidence t)
  marked_eq evidence t =
      transition_hit is_unpaid (mark evidence) (record (claimed share db) { base = t })
        claimed-IsKeyed (found_pending (is_share share.id) (λ s. refl) by_id) refl

  marked_found :
      (q : BookingShare → Bool)
      → ((status : BookingShareStatus) (s : BookingShare) → q (set_share_status status s) ≡ q s)
      → ((evidence : Evidence) (s : BookingShare) → q (mark evidence s) ≡ q s)
      → find_by q db.shares ≡ some share
      → (evidence : Evidence) (t : GuaranteesDb)
      → find_by q (marked_db evidence t).shares ≡ some (mark evidence share)
  marked_found q keep keep' f evidence t =
      transition_found is_unpaid (mark evidence) (record (claimed share db) { base = t })
        claimed-IsKeyed (found_pending (is_share share.id) (λ s. refl) by_id) q (keep' evidence)
        refl (found_pending q (keep payment_pending) f)

  after_mark :
      (evidence : Evidence) (t : GuaranteesDb) {r : Result (Option BookingShare) × SharesDb}
      → (on_base release >> gets (find_share_by_id share.id)) (marked_db evidence t) ≡ r
      → finish_share now payer source share evidence (record (claimed share db) { base = t }) ≡ r
  unfolding finish_share
  after_mark evidence t e = rw (marked_eq evidence t) e

  release_on_shares :
      (evidence : Evidence) (t : GuaranteesDb) {r : Result (Unit {0})} {t' : GuaranteesDb}
      → release t ≡ (r, t')
      → on_base release (marked_db evidence t) ≡ (r, marked_db evidence t')
  release_on_shares evidence t l = rw l

  finish_eq :
      (evidence : Evidence) (t : GuaranteesDb) (r : Result (Unit {0})) (t' : GuaranteesDb)
      → release t ≡ (r, t')
      → finish_share now payer source share evidence (record (claimed share db) { base = t })
        ≡ (then_answer r (some (mark evidence share)), marked_db evidence t')
  finish_eq evidence t (ok _) t' l =
      let f = marked_found (is_share share.id) (λ k s. refl) (λ k s. refl) by_id evidence t' in
      after_mark evidence t (
        bind_ok (on_base release) (λ _. gets (find_share_by_id share.id))
          (release_on_shares evidence t l)
        ∙ rw f)
  finish_eq evidence t (err e) t' l = after_mark evidence t (
      bind_err (on_base release) (λ _. gets (find_share_by_id share.id))
        (release_on_shares evidence t l))

  taken_eq :
      (evidence : Evidence) (t : GuaranteesDb) (r : Result (Unit {0})) (t' : GuaranteesDb)
      → payment_step db.base ≡ (ok evidence, t)
      → release t ≡ (r, t')
      → outcome ≡ (then_answer r (some (mark evidence share)), marked_db evidence t')
  unfolding take_or_restore
  taken_eq evidence t r t' m l = after_claim (
      bind_ok (take_or_restore provider payer source method share)
        (finish_share now payer source share)
        (attempt_ok (on_base payment_step) (restore_status share) (on_shares (ok evidence) t m))
      ∙ finish_eq evidence t r t' l)

  when_taken :
      (evidence : Evidence) (t : GuaranteesDb)
      → payment_step db.base ≡ (ok evidence, t)
      → IsSettled now payer hash source share payment_step db outcome
  when_taken evidence t m =
      let l = release t in
      rw (taken_eq evidence t l.0 l.1 m refl) record {
        evidence = evidence;
        step = rw m;
        released = rw m;
        answer = rw m;
        paid = marked_found (has_token hash) (λ k s. refl) (λ k s. refl) found evidence l.1;
        still_keyed =
            update_where-IsKeyed share_key _ (mark evidence) _ (λ s. refl) claimed-IsKeyed;
      }

  pub pay_found_lem :
      Restored now payer hash source share payment_step db outcome
      ⊎ IsSettled now payer hash source share payment_step db outcome
  pay_found_lem = by_step (payment_step db.base).0 (payment_step db.base).1 refl
    where
      by_step :
          (r : Result Evidence) (t : GuaranteesDb)
          → payment_step db.base ≡ (r, t)
          → Restored now payer hash source share payment_step db outcome
            ⊎ IsSettled now payer hash source share payment_step db outcome
      by_step (ok evidence) t m = inr (when_taken evidence t m)
      by_step (err e) t m = inl (when_thrown e t m)
