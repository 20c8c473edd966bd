-- ===== src/Wallet/HoldTable.antt =====
-- The table of holds under an update of the rows that a condition on one id selects.
use ardenne_padel_v.Prelude.{
  ◌==◌, if◌then◌else◌, ==_iff, Bool-cases, All, update_where, count_by, ℤ, pos, pos_part, neg_part,
  int_laws, ◌+ℤ◌, ℕ, ◌≡◌, refl, sym, ap, ◌∙◌, subst, ◌≢◌, inl, inr, Bool, true, false, ◌&&◌, none,
  some, some-injective, List, [], ◌∷◌,
}
use ardenne_padel_v.Wallet.Store.{WalletHold, is_active, sum_active, find_hold}
use ardenne_padel_v.Wallet.Solvency.{IsDistinct}

-- What a hold contributes to the reserve of an account.
abbrev pub weight : ℕ → WalletHold → ℤ
weight a h = if h.wallet_account_id == a && is_active h.status then h.amount_cents else pos 0

pub find_hold-id :
    (id : ℕ) (hs : List WalletHold) {h : WalletHold} → find_hold id hs ≡ some h → h.id ≡ id
unfolding find_hold
find_hold-id id [] e = cc
find_hold-id id (x ∷ xs) {h} e = elim (Bool-cases (x.id == id)) [
  | inl same ↦
      let here : x ≡ h = some-injective _ _ (rw same at e) in
      ap (λ (k : WalletHold). k.id) (sym here) ∙ (==_iff x.id id).0 same
  | inr other ↦ find_hold-id id xs (rw other at e)
]

module _ (id : ℕ) (p : WalletHold → Bool) (f : WalletHold → WalletHold)
    (selects : (k : WalletHold) → p k ≡ true → k.id ≡ id) where
  misses : (k : WalletHold) → ¬ (k.id ≡ id) → p k ≡ false
  misses k ne = elim (Bool-cases (p k)) [ inl e ↦ absurd (ne (selects k e)) | inr e ↦ e ]

  pub update-untouched :
      (hs : List WalletHold)
      → All (λ k. k.id ≢ id) hs
      → (count_by p hs ≡ 0) × (update_where p f hs ≡ hs)
  update-untouched [] a = (refl, refl)
  update-untouched (x ∷ xs) a =
      let (c, u) = update-untouched xs a.1 in rw (misses x a.0) (rw c, ap (λ ys. x ∷ ys) u)

  pub update-missing :
      (hs : List WalletHold)
      → find_hold id hs ≡ none
      → (count_by p hs ≡ 0) × (update_where p f hs ≡ hs)
  unfolding find_hold
  update-missing [] e = (refl, refl)
  update-missing (x ∷ xs) e = elim (Bool-cases (x.id == id)) [
    | inl same ↦ absurd_some e same
    | inr other ↦
        let rest : find_hold id xs ≡ none = rw other at e in
        let (c, u) = update-missing xs rest in
        rw (misses x (λ same. cc (other, (==_iff x.id id).1 same))) (rw c, ap (λ ys. x ∷ ys) u)
  ]
    where
      absurd_some :
          {A : Type 0}
          → (if x.id == id then some x else find_hold id xs) ≡ none
          → (x.id == id) ≡ true
          → A
      absurd_some e' same = cc (e', same)

  -- The one row with the id, when the condition holds of it.
  pub update-touched :
      (hs : List WalletHold) {h : WalletHold}
      → IsDistinct hs
      → find_hold id hs ≡ some h
      → p h ≡ true
      → (count_by p hs ≡ 1)
        × ((a : ℕ)
            → sum_active a (update_where p f hs) +ℤ weight a h ≡ sum_active a hs +ℤ weight a (f h))
  unfolding find_hold sum_active
  update-touched [] d e t = cc
  update-touched (x ∷ xs) {h} d e t = elim (Bool-cases (x.id == id)) [
    | inl same ↦
        let here : x ≡ h = some-injective _ _ (rw same at e) in
        let at_x : p x ≡ true = rw here t in
        let id_x : x.id ≡ id = (==_iff x.id id).0 same in
        let (c, u) = update-untouched xs (subst (λ n. All (λ k. k.id ≢ n) xs) id_x d.0) in
        rw (← here, at_x, c, u) (refl, λ a. omega int_laws)
    | inr other ↦
        let rest : find_hold id xs ≡ some h = rw other at e in
        let (c, u) = update-touched xs d.1 rest t in
        rw (misses x (λ same. cc (other, (==_iff x.id id).1 same)))
          (rw c, λ a. omega (int_laws, ap pos_part (u a), ap neg_part (u a)))
  ]

  -- The one row with the id, when the condition fails on it.
  pub update-refused :
      (hs : List WalletHold) {h : WalletHold}
      → IsDistinct hs
      → find_hold id hs ≡ some h
      → p h ≡ false
      → (count_by p hs ≡ 0) × (update_where p f hs ≡ hs)
  unfolding find_hold
  update-refused [] d e t = cc
  update-refused (x ∷ xs) {h} d e t = elim (Bool-cases (x.id == id)) [
    | inl same ↦
        let here : x ≡ h = some-injective _ _ (rw same at e) in
        let at_x : p x ≡ false = rw here t in
        let id_x : x.id ≡ id = (==_iff x.id id).0 same in
        let (c, u) = update-untouched xs (subst (λ n. All (λ k. k.id ≢ n) xs) id_x d.0) in
        rw at_x (rw c, ap (λ ys. x ∷ ys) u)
    | inr other ↦
        let (c, u) = update-refused xs d.1 (rw other at e) t in
        rw (misses x (λ same. cc (other, (==_iff x.id id).1 same))) (rw c, ap (λ ys. x ∷ ys) u)
  ]

  -- A property of the rows is kept if the update keeps it.
  pub update-All {ℓ} :
      (P : WalletHold → Type ℓ) (hs : List WalletHold)
      → ((k : WalletHold) → p k ≡ true → P k → P (f k))
      → All P hs
      → All P (update_where p f hs)
  update-All P [] keep a = tt
  update-All P (x ∷ xs) keep a = elim (Bool-cases (p x)) [
    | inl e ↦ rw e (keep x e a.0, update-All P xs keep a.1)
    | inr e ↦ rw e (a.0, update-All P xs keep a.1)
  ]

  pub update-IsDistinct :
      (hs : List WalletHold)
      → ((k : WalletHold) → (f k).id ≡ k.id)
      → IsDistinct hs
      → IsDistinct (update_where p f hs)
  update-IsDistinct [] same d = tt
  update-IsDistinct (x ∷ xs) same d =
      let rest = update-IsDistinct xs same d.1 in
      let apart = update-All (λ k. k.id ≢ x.id) xs (λ k _ ne. rw (same k) ne) d.0 in
      elim (Bool-cases (p x)) [ inl e ↦ rw (e, same x) (apart, rest) | inr e ↦ rw e (apart, rest) ]
