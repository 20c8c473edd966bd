-- ===== src/Guarantees/PaidShares.antt =====
-- What a paid share does to a guarantee in the wallet: `releaseForPaidShare`
-- (booking-guarantee.service.ts).
use ardenne_padel_v.Guarantees.Store.{
  partially_released, guarantee_released, BookingGuarantee, GuaranteesDb, is_of, find_by_booking_id,
  is_open, can_release, release_amount, set_status,
}
use ardenne_padel_v.Prelude.{
  ◌==◌, ==_iff, Bool-cases, and_true, find_by, update_where, ℤ, pos, pos_part, neg_part, ◌≤ℤ◌, ◌<ℤ◌,
  leb_ℤ, ltb_ℤ, ◌==ℤ◌, min_ℤ, int_laws, ==ℤ_iff, ltb_ℤ→lt, ltb_ℤ→ge, le→leb_ℤ, gt→leb_ℤ, leb_ℤ→le,
  ◌-ℤ◌, ok, integer, ℕ, ◌≡◌, refl, sym, ap, ◌∙◌, subst, ◌⊎◌, inl, inr, true, false, ◌&&◌, some,
  arith,
}
use ardenne_padel_v.Prelude.Action.{◌>>=◌}
use ardenne_padel_v.Prelude.Keyed.{
  find_by-update_where, find_by-found, one_selected, nothing_selected, update_where-IsKeyed,
}
use ardenne_padel_v.Wallet.Store.{
  WalletHold, WalletDb, is_active, find_hold_by_id, can_reduce, reduce_hold_amount,
}
use ardenne_padel_v.Wallet.Service.{release_part, release_hold_partially}
use ardenne_padel_v.Wallet.Solvency.{IsValid}
use ardenne_padel_v.Wallet.HoldChange.{Falls}
use ardenne_padel_v.Wallet.PartialRelease.{reduced, matches, reduction_won, partial_active}
use ardenne_padel_v.Guarantees.{
  hold_of, share_mark, follow_release, release_share, release_for_paid_share,
}
use ardenne_padel_v.Guarantees.WalletBacked.{
  IsBacked, find_hold-find_by, is_open→unsettled, with_hold_lem,
}

-- A hold of which a part was released is found with the rest.
part_found :
    (now id : ℕ) (amount : ℤ) (h : WalletHold) (db : WalletDb)
    → IsValid db
    → pos 0 ≤ℤ amount
    → find_hold_by_id id db ≡ some h
    → is_active h.status ≡ true
    → amount <ℤ h.amount_cents
    → find_hold_by_id id (release_hold_partially now id (integer amount) db).1
      ≡ some (reduced amount h)
unfolding release_hold_partially release_part reduce_hold_amount
part_found now id amount h db v p found live less =
    let le : amount ≤ℤ h.amount_cents = omega arith in
    let here : find_by (λ k. k.id == id) db.holds ≡ some h =
      sym (find_hold-find_by id db.holds) ∙ found in
    let m = matches id amount h db v p found live le in
    rw
      (
        found,
        live,
        gt→leb_ℤ h.amount_cents amount less,
        ◌>>=◌,
        reduction_won id amount h db v p found live le,
      )
      (find_hold-find_by id _
        ∙ find_by-update_where (λ k. k.id == id) (can_reduce id amount) (reduced amount) db.holds
            (λ k. refl) here
        ∙ rw m)

-- What follows the reduction of the guarantee `k`.
follow_release_lem :
    (now booking : ℕ) (amount : ℤ) (k : BookingGuarantee) (hold : ℕ) (s : GuaranteesDb)
    → hold_of k.type k.wallet_hold_id ≡ some hold
    → (release_hold_partially now hold (integer amount) s.wallet).0 ≡ ok tt
    → follow_release now booking amount (some k) s ≡ (
      ok tt,
      record s {
        wallet = (release_hold_partially now hold (integer amount) s.wallet).1;
        guarantees = update_where (is_of booking) (share_mark now k) s.guarantees;
      },
    )
follow_release_lem now booking amount k hold s e r =
    let done =
      with_hold_lem (hold_of k.type k.wallet_hold_id)
        (λ id. release_hold_partially now id (integer amount)) hold s e r in
    rw (done, ◌>>=◌, done)

share_mark-booking :
    (now : ℕ) (k y : BookingGuarantee) → (share_mark now k y).booking_id ≡ y.booking_id
share_mark-booking now k y = elim (Bool-cases (k.remaining_guaranteed_cents ==ℤ pos 0)) [
  | inl e ↦ rw e
  | inr e ↦ rw e
]

min_above : (x y : ℤ) → y ≤ℤ x → min_ℤ x y ≡ y
min_above x y le = elim (Bool-cases (leb_ℤ x y)) [
  | inl e ↦ let h = leb_ℤ→le x y e in rw e (omega int_laws)
  | inr e ↦ rw e
]

nothing_left : (a b : ℤ) → a ≡ b → (a -ℤ b ==ℤ pos 0) ≡ true
nothing_left a b e = (==ℤ_iff (a -ℤ b) (pos 0)).1 (rw e (omega int_laws))

something_left : (a b : ℤ) → b <ℤ a → (a -ℤ b ==ℤ pos 0) ≡ false
something_left a b lt = elim (Bool-cases (a -ℤ b ==ℤ pos 0)) [
  | inl e ↦
      let same = (==ℤ_iff (a -ℤ b) (pos 0)).0 e in
      absurd (omega (int_laws, ap pos_part same, ap neg_part same))
  | inr e ↦ e
]

can_release-booking :
    (booking : ℕ) (amount : ℤ) (k : BookingGuarantee)
    → can_release booking amount k ≡ true
    → k.booking_id ≡ booking
can_release-booking booking amount k e =
    let (a, _) = and_true (is_of booking k && is_open k.status) _ e in
    (==_iff k.booking_id booking).0 (and_true (is_of booking k) (is_open k.status) a).0

-- A paid share that the guarantee covers.
module _ (now booking : ℕ) (amount : ℤ) (g : BookingGuarantee) (h : WalletHold) (db : GuaranteesDb)
    (b : IsBacked booking g h db) (p : pos 0 ≤ℤ amount)
    (covered : amount ≤ℤ g.remaining_guaranteed_cents) where
  abbrev lowered : BookingGuarantee → BookingGuarantee
  lowered k = record k { remaining_guaranteed_cents = k.remaining_guaranteed_cents -ℤ amount }

  abbrev marked : BookingGuarantee → BookingGuarantee
  marked = share_mark now (lowered g)

  abbrev after_share : GuaranteesDb
  after_share = record db {
    wallet = (release_hold_partially now h.id (integer amount) db.wallet).1;
    guarantees =
        update_where (is_of booking) marked
          (update_where (can_release booking amount) lowered db.guarantees);
  }

  covers : can_release booking amount g ≡ true
  covers = rw (
    find_by-found (is_of booking) db.guarantees b.found,
    b.still_open,
    le→leb_ℤ amount g.remaining_guaranteed_cents covered,
  )

  lowered_found :
      find_by (is_of booking) (update_where (can_release booking amount) lowered db.guarantees)
      ≡ some (lowered g)
  lowered_found =
      find_by-update_where (is_of booking) (can_release booking amount) lowered db.guarantees
        (λ k. refl) b.found
      ∙ rw covers

  share_taken : release_for_paid_share now booking amount db ≡ (ok tt, after_share)
  unfolding release_for_paid_share release_share release_amount
  share_taken =
      let one =
        one_selected (λ (k : BookingGuarantee). k.booking_id) booking (can_release booking amount)
          lowered (can_release-booking booking amount) db.guarantees b.one_each b.found covers in
      let (r, _) = partial_active now h.id amount h db.wallet b.sound p b.held b.live in
      rw (b.found, ◌>>=◌, is_open→unsettled g.status b.still_open, one, lowered_found)
        (follow_release_lem now booking amount (lowered g) h.id _ b.reserve r)

  -- The guarantee afterwards
  abbrev settled_share : BookingGuarantee
  settled_share = marked (lowered g)

  share_found : find_by_booking_id booking after_share ≡ some settled_share
  share_found =
      find_by-update_where (is_of booking) (is_of booking) marked _
        (λ k. ap (λ n. n == booking) (share_mark-booking now (lowered g) k)) lowered_found
      ∙ rw (find_by-found (is_of booking) db.guarantees b.found)

  smaller : min_ℤ h.amount_cents amount ≡ amount
  smaller =
      let e = b.in_step in
      min_above h.amount_cents amount (subst (λ x. amount ≤ℤ x) (sym e) covered)

  share-Falls : Falls h.wallet_account_id (pos 0) amount db.wallet after_share.wallet
  share-Falls =
      let (_, f) = partial_active now h.id amount h db.wallet b.sound p b.held b.live in
      subst (λ x. Falls h.wallet_account_id (pos 0) x db.wallet after_share.wallet) smaller f

  all_paid :
      g.remaining_guaranteed_cents ≡ amount
      → (settled_share.status ≡ guarantee_released)
        × (settled_share.remaining_guaranteed_cents ≡ pos 0)
  all_paid e = rw (nothing_left g.remaining_guaranteed_cents amount e) (refl, rw e (omega int_laws))

  abbrev rest_of_guarantee : BookingGuarantee
  rest_of_guarantee = set_status partially_released (lowered g)

  part_paid :
      amount <ℤ g.remaining_guaranteed_cents
      → IsBacked booking rest_of_guarantee (reduced amount h) after_share
  part_paid less =
      let part : marked ≡ set_status partially_released =
        rw (something_left g.remaining_guaranteed_cents amount less) in
      record {
        found =
            subst (λ m. find_by_booking_id booking after_share ≡ some (m (lowered g))) part
              share_found;
        one_each =
            update_where-IsKeyed (λ (k : BookingGuarantee). k.booking_id) (is_of booking) marked _
              (share_mark-booking now (lowered g))
              (update_where-IsKeyed (λ (k : BookingGuarantee). k.booking_id)
                (can_release booking amount) lowered db.guarantees (λ k. refl) b.one_each);
        reserve = b.reserve;
        source = b.source;
        held =
            part_found now h.id amount h db.wallet b.sound p b.held b.live
              (subst (λ x. amount <ℤ x) (sym b.in_step) less);
        live = b.live;
        still_open = refl;
        in_step = ap (λ x. x -ℤ amount) b.in_step;
        sound = share-Falls.valid;
      }

-- What `releaseForPaidShare` of an amount that the guarantee covers has done, and nothing else: the
-- reserve of the hold's account fell by the amount and no money moved; and the guarantee
-- was released, with nothing left, if that was all, or is open and backed with the rest.
pub record ShareReleased (booking : ℕ) (amount : ℤ) (g : BookingGuarantee) (h : WalletHold)
    (db db' : GuaranteesDb) : Type 0 where
  pub reserve_lifted : Falls h.wallet_account_id (pos 0) amount db.wallet db'.wallet
  pub payments_kept : db'.payments ≡ db.payments
  pub rest :
      ((g.remaining_guaranteed_cents ≡ amount)
        × ((g' : BookingGuarantee) × (find_by_booking_id booking db' ≡ some g')
            × (g'.status ≡ guarantee_released)
            × (g'.remaining_guaranteed_cents ≡ pos 0)))
      ⊎ ((amount <ℤ g.remaining_guaranteed_cents)
          × IsBacked booking
              (record g {
                status = partially_released;
                remaining_guaranteed_cents = g.remaining_guaranteed_cents -ℤ amount;
              })
              (record h { amount_cents = h.amount_cents -ℤ amount })
              db')

equal_or_less : (x y : ℤ) → y ≤ℤ x → (x ≡ y) ⊎ (y <ℤ x)
equal_or_less x y le = elim (Bool-cases (ltb_ℤ y x)) [
  | inl e ↦ inr (ltb_ℤ→lt y x e)
  | inr e ↦ let ge = ltb_ℤ→ge y x e in inl (omega int_laws)
]

-- A guarantee that a payment exceeds is left as it is.
share_refused :
    (now booking : ℕ) (amount : ℤ) (g : BookingGuarantee) (h : WalletHold) (db : GuaranteesDb)
    → IsBacked booking g h db
    → g.remaining_guaranteed_cents <ℤ amount
    → release_for_paid_share now booking amount db ≡ (ok tt, db)
unfolding release_for_paid_share release_share release_amount
share_refused now booking amount g h db b less =
    let here = find_by-found (is_of booking) db.guarantees b.found in
    let off : can_release booking amount g ≡ false =
      rw (here, b.still_open, gt→leb_ℤ amount g.remaining_guaranteed_cents less) in
    let (none_hit, kept) =
      nothing_selected (λ (k : BookingGuarantee). k.booking_id) booking (can_release booking amount)
        (λ k. record k { remaining_guaranteed_cents = k.remaining_guaranteed_cents -ℤ amount })
        (can_release-booking booking amount) db.guarantees b.one_each b.found off in
    rw (b.found, ◌>>=◌, is_open→unsettled g.status b.still_open, none_hit, kept)

-- Of a guarantee that is open and backed by a hold, `releaseForPaidShare` of an amount of zero or
-- more never throws. If the guarantee covers the amount, it lifts that much of the reserve and
-- keeps guarantee and hold in step, or releases the guarantee when nothing is left. Otherwise it
-- changes nothing.
pub release_for_paid_share_lem :
    (now booking : ℕ) (amount : ℤ) (g : BookingGuarantee) (h : WalletHold) (db : GuaranteesDb)
    → IsBacked booking g h db
    → pos 0 ≤ℤ amount
    → let (r, db') = release_for_paid_share now booking amount db in
      (r ≡ ok tt)
      × (((amount ≤ℤ g.remaining_guaranteed_cents) × ShareReleased booking amount g h db db')
          ⊎ ((g.remaining_guaranteed_cents <ℤ amount) × (db' ≡ db)))
release_for_paid_share_lem now booking amount g h db b p =
    elim (Bool-cases (ltb_ℤ g.remaining_guaranteed_cents amount)) [
      | inl above ↦
          let less = ltb_ℤ→lt g.remaining_guaranteed_cents amount above in
          rw (share_refused now booking amount g h db b less) (refl, inr (less, refl))
      | inr within ↦
          let le = ltb_ℤ→ge g.remaining_guaranteed_cents amount within in
          rw (share_taken now booking amount g h db b p le) (
            refl,
            inl (
              le,
              record {
                reserve_lifted = share-Falls now booking amount g h db b p le;
                payments_kept = refl;
                rest = elim (equal_or_less g.remaining_guaranteed_cents amount le) [
                  | inl e ↦
                      let (s, z) = all_paid now booking amount g h db b p le e in
                      inl (
                        e,
                        (
                          settled_share now booking amount g h db b p le,
                          share_found now booking amount g h db b p le,
                          s,
                          z,
                        ),
                      )
                  | inr less ↦ inr (less, part_paid now booking amount g h db b p le less)
                ];
              },
            ),
          )
    ]
