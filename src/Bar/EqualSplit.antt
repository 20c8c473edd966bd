-- ===== src/Bar/EqualSplit.antt =====
-- `previewEqualSplit` of apps/api/src/modules/nextore/split.service.ts.
use ardenne_padel_v.Prelude.{
  Bool-cases, length, ℤ, pos, ◌≤ℤ◌, ◌<ℤ◌, leb_ℤ, ltb_ℤ, sum_ℤ, leb_ℤ→le, leb_ℤ→gt, ok, err, Number,
  integer, ℕ, suc, ◌+◌, ◌≡◌, refl, ap, ◌⊎◌, inl, inr, true, false, List, [], ◌∷◌, map, arith,
}
use ardenne_padel_v.Prelude.Action.{Action, pure, gets, from_result, ◌>>=◌, ◌>>◌, raise_if}
use ardenne_padel_v.Money.{split_evenly}
use ardenne_padel_v.Money.Even.{split_evenly_lem, split_evenly_total}
use ardenne_padel_v.Bar.Store.{BarDb, validation, integer_from}
use ardenne_padel_v.Bar.Accounts.{get_due_total_cents}

pub record EqualSplitShare : Type 0 where
  pub index : ℕ
  pub amount_cents : ℤ

-- `map((amountCents, index) => ({ index, amountCents }))` from an index on
unfoldable pub numbered : ℕ → List ℤ → List EqualSplitShare
numbered i [] = []
numbered i (x ∷ xs) = record { index = i; amount_cents = x } ∷ numbered (i + 1) xs

-- `previewEqualSplit`
unfoldable pub preview_equal_split : ℕ → Number → Action BarDb (List EqualSplitShare)
preview_equal_split account number = do
  parts ← integer_from (pos 1) number
  due ← gets (get_due_total_cents account)
  raise_if (leb_ℤ due (pos 0)) validation
  amounts ← from_result (split_evenly (integer due) (integer parts))
  pure (numbered 0 amounts)

abbrev pub amounts_of : List EqualSplitShare → List ℤ
amounts_of shares = map (λ s. s.amount_cents) shares

amounts_of-numbered : (i : ℕ) (xs : List ℤ) → amounts_of (numbered i xs) ≡ xs
unfolding numbered
amounts_of-numbered i [] = refl
amounts_of-numbered i (x ∷ xs) = ap (λ rest. x ∷ rest) (amounts_of-numbered (i + 1) xs)

split_exists :
    (due : ℤ) (k : ℕ)
    → (out : List ℤ) × (split_evenly (integer due) (integer (pos (suc k))) ≡ ok out)
split_exists due k =
    (split_evenly_total (integer due) (integer (pos (suc k)))).1 (due, k, refl, refl)

enough_parts : (k : ℕ) → ltb_ℤ (pos (suc k)) (pos 1) ≡ false
enough_parts k = ground arith

module _ (account k : ℕ) (db : BarDb) where
  preview-settled :
      leb_ℤ (get_due_total_cents account db) (pos 0) ≡ true
      → preview_equal_split account (integer (pos (suc k))) db ≡ (err validation, db)
  unfolding preview_equal_split
  preview-settled settled = rw (enough_parts k, ◌>>=◌, settled)

  preview-owed :
      leb_ℤ (get_due_total_cents account db) (pos 0) ≡ false
      → {out : List ℤ}
      → split_evenly (integer (get_due_total_cents account db)) (integer (pos (suc k))) ≡ ok out
      → preview_equal_split account (integer (pos (suc k))) db ≡ (ok (numbered 0 out), db)
  unfolding preview_equal_split
  preview-owed owed e = rw (enough_parts k, ◌>>=◌, owed, e)

-- `previewEqualSplit` of an account with money due into a positive number of parts gives as many
-- parts, which add up to what is due; if nothing is due it throws. It changes nothing.
pub preview_equal_split_lem :
    (account k : ℕ) (db : BarDb)
    → let (r, db') = preview_equal_split account (integer (pos (suc k))) db in
      (db' ≡ db)
      × (((pos 0 <ℤ get_due_total_cents account db)
            × (shares : List EqualSplitShare) × (r ≡ ok shares)
            × (length (amounts_of shares) ≡ suc k)
            × (sum_ℤ (amounts_of shares) ≡ get_due_total_cents account db))
          ⊎ ((get_due_total_cents account db ≤ℤ pos 0) × (r ≡ err validation)))
preview_equal_split_lem account k db =
    elim (Bool-cases (leb_ℤ (get_due_total_cents account db) (pos 0))) [
      | inl settled ↦
          rw (preview-settled account k db settled)
            (refl, inr (leb_ℤ→le (get_due_total_cents account db) (pos 0) settled, refl))
      | inr owed ↦
          let (out, e) = split_exists (get_due_total_cents account db) k in
          let (n, s, _, _) = split_evenly_lem (get_due_total_cents account db) (suc k) e in
          rw (preview-owed account k db owed e) (
            refl,
            inl (
              leb_ℤ→gt (get_due_total_cents account db) (pos 0) owed,
              numbered 0 out,
              refl,
              rw (amounts_of-numbered 0 out) n,
              rw (amounts_of-numbered 0 out) s,
            ),
          )
    ]
