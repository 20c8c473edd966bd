-- ===== src/Shares/Rows.antt =====
-- The conditional update of a share, on a table where no two shares have the same id.
use ardenne_padel_v.Prelude.{
  ◌==◌, ==_iff, ==_refl, Bool-cases, find_by, update_where, ℕ, ◌≡◌, ◌∙◌, inl, inr, Bool, true,
  false, ◌&&◌, some,
}
use ardenne_padel_v.Prelude.Keyed.{find_by-update_where, IsKeyed, one_selected, nothing_selected}
use ardenne_padel_v.Shares.Store.{
  BookingShareStatus, BookingShare, SharesDb, is_share, find_share_by_id, transition_share,
}

abbrev pub share_key : BookingShare → ℕ
share_key s = s.id

module _ (allowed : BookingShareStatus → Bool) (change : BookingShare → BookingShare)
    (db : SharesDb) {x : BookingShare} (keyed : IsKeyed share_key db.shares)
    (found : find_share_by_id x.id db ≡ some x) where
  abbrev chosen : BookingShare → Bool
  chosen s = is_share x.id s && allowed s.status

  chosen_key : (s : BookingShare) → chosen s ≡ true → s.id ≡ x.id
  chosen_key s e = elim (Bool-cases (s.id == x.id)) [
    | inl same ↦ (==_iff s.id x.id).0 same
    | inr other ↦ cc (let e' : false ≡ true = rw other at e in e')
  ]

  pub transition_hit :
      allowed x.status ≡ true
      → transition_share allowed x.id change db
        ≡ (true, record db { shares = update_where chosen change db.shares })
  unfolding transition_share
  transition_hit e = rw (
      one_selected share_key x.id chosen change chosen_key db.shares keyed found
        (rw (==_refl x.id) e))

  pub transition_miss :
      allowed x.status ≡ false → transition_share allowed x.id change db ≡ (false, db)
  unfolding transition_share
  transition_miss e =
      let (c, u) =
        nothing_selected share_key x.id chosen change chosen_key db.shares keyed found
          (rw (==_refl x.id) e) in
      rw (c, u)

  -- A change that keeps what is searched for is seen on the share.
  pub transition_found :
      (q : BookingShare → Bool)
      → ((s : BookingShare) → q (change s) ≡ q s)
      → allowed x.status ≡ true
      → find_by q db.shares ≡ some x
      → find_by q (update_where chosen change db.shares) ≡ some (change x)
  transition_found q keep e f =
      find_by-update_where q chosen change db.shares keep f ∙ rw (==_refl x.id, e)
