-- ===== src/SplitShares/Totals.antt =====
-- The shares of a split booking add up to its price and its fee.
use ardenne_padel_v.Prelude.{
  length, replicate, All, ℤ, pos, int_laws, sum_ℤ, ◌+ℤ◌, Result, ok, err, integer, ok-injective, ℕ,
  zero, suc, ◌+◌, ◌<◌, ◌≡◌, refl, sym, ap, ap₂, ◌∙◌, subst, true, false, List, [], ◌∷◌, map, arith,
}
use ardenne_padel_v.Money.{floor_div, split_evenly}
use ardenne_padel_v.Money.Even.{IsNear, split_evenly_lem}
use ardenne_padel_v.SplitShares.{
  SplitServiceFeeAllocation, organizer, pro_rata, SplitShare, ComputeSplitSharesInput,
  compute_split_shares, ◌>>=◌, fee_amounts, rest_of, shares_from, with_count,
}

abbrev pub base_sum : List SplitShare → ℤ
base_sum shares = sum_ℤ (map (λ s. s.base_amount_cents) shares)

abbrev pub fee_sum : List SplitShare → ℤ
fee_sum shares = sum_ℤ (map (λ s. s.service_fee_amount_cents) shares)

abbrev pub total_sum : List SplitShare → ℤ
total_sum shares = sum_ℤ (map (λ s. s.total_amount_cents) shares)

-- Exactly the first share is the organizer's.
abbrev pub OrganizerFirst : List SplitShare → Type 0
OrganizerFirst [] = ⊥
OrganizerFirst (s ∷ others) = (s.is_organizer ≡ true) × All (λ o. o.is_organizer ≡ false) others

-- What each party pays of the fee, by who bears it.
abbrev pub FeeBorne : SplitServiceFeeAllocation → ℤ → List SplitShare → Type 0
FeeBorne organizer fee [] = ⊥
FeeBorne organizer fee (s ∷ others) =
    (s.service_fee_amount_cents ≡ fee) × All (λ o. o.service_fee_amount_cents ≡ pos 0) others
FeeBorne pro_rata fee shares =
    All (λ s. IsNear (floor_div fee (length shares)) s.service_fee_amount_cents) shares

sum-replicate : (n : ℕ) → sum_ℤ (replicate n (pos 0)) ≡ pos 0
sum-replicate zero = refl
sum-replicate (suc n) = rw (sum-replicate n) (omega int_laws)

length-replicate : (n : ℕ) (a : ℤ) → length (replicate n a) ≡ n
length-replicate zero a = refl
length-replicate (suc n) a = ap suc (length-replicate n a)

replicate-zero : (n : ℕ) → All (λ x. x ≡ pos 0) (replicate n (pos 0))
replicate-zero zero = tt
replicate-zero (suc n) = (refl, replicate-zero n)

shares_from-sums :
    (i : ℕ) (bases fees : List ℤ)
    → length bases ≡ length fees
    → let out = shares_from i bases fees in
      (length out ≡ length bases)
      × (base_sum out ≡ sum_ℤ bases)
      × (fee_sum out ≡ sum_ℤ fees)
      × (total_sum out ≡ sum_ℤ bases +ℤ sum_ℤ fees)
unfolding shares_from
shares_from-sums i [] [] h = (refl, refl, refl, omega int_laws)
shares_from-sums i [] (f ∷ fees) h = absurd (omega arith)
shares_from-sums i (b ∷ bases) [] h = absurd (omega arith)
shares_from-sums i (b ∷ bases) (f ∷ fees) h =
    let (n, p, q, r) = shares_from-sums (i + 1) bases fees (omega arith) in
    (ap suc n, rw p, rw q, rw r (omega int_laws))

shares_from-later :
    (i : ℕ) (bases fees : List ℤ)
    → 0 < i
    → All (λ o. o.is_organizer ≡ false) (shares_from i bases fees)
unfolding shares_from
shares_from-later i [] fees h = tt
shares_from-later i (b ∷ bases) fees h =
    (ground arith, shares_from-later (i + 1) bases (rest_of fees) (omega arith))

shares_from-fees {ℓ} :
    (P : ℤ → Type ℓ) (i : ℕ) (bases fees : List ℤ)
    → length bases ≡ length fees
    → All P fees
    → All (λ s. P s.service_fee_amount_cents) (shares_from i bases fees)
unfolding shares_from
shares_from-fees P i [] fees h a = tt
shares_from-fees P i (b ∷ bases) [] h a = absurd (omega arith)
shares_from-fees P i (b ∷ bases) (f ∷ fees) h a =
    (a.0, shares_from-fees P (i + 1) bases fees (omega arith) a.1)

fee_amounts_lem :
    (a : SplitServiceFeeAllocation) (fee : ℤ) (others : ℕ) {fees : List ℤ}
    → fee_amounts a fee others ≡ ok fees
    → (length fees ≡ suc others) × (sum_ℤ fees ≡ fee)
unfolding fee_amounts
fee_amounts_lem organizer fee others e =
    rw (← ok-injective e)
      (ap suc (length-replicate others (pos 0)), rw (sum-replicate others) (omega int_laws))
fee_amounts_lem pro_rata fee others e = let r = split_evenly_lem fee (suc others) e in (r.0, r.1)

-- A chain that succeeds has a first step that succeeds.
chain-ok :
    {A B : Type 0} {next : A → Result B} {out : B} (step : Result A)
    → (step >>= next) ≡ ok out
    → (value : A) × (next value ≡ ok out) × (step ≡ ok value)
chain-ok (ok value) h = (value, h, refl)
chain-ok (err _) h = cc

-- A result comes from a list of base amounts and one of fees.
with_count-parts :
    (input : ComputeSplitSharesInput) (others : ℕ) {out : List SplitShare}
    → with_count input (integer (pos (suc others))) ≡ ok out
    → (bases fees : List ℤ) × (split_evenly
          (integer input.base_price_total_cents)
          (integer (pos (suc others)))
        ≡ ok bases)
      × (fee_amounts input.allocation input.service_fee_cents others ≡ ok fees)
      × (shares_from 0 bases fees ≡ out)
unfolding with_count
with_count-parts input others e =
    let (bases, e', eb) = chain-ok (split_evenly _ _) e in
    let (fees, e'', ef) = chain-ok (fee_amounts _ _ _) e' in (bases, fees, eb, ef, ok-injective e'')

shares_from-OrganizerFirst :
    (bases fees : List ℤ) → 0 < length bases → OrganizerFirst (shares_from 0 bases fees)
unfolding shares_from
shares_from-OrganizerFirst [] fees h = absurd (omega arith)
shares_from-OrganizerFirst (b ∷ bases) fees h =
    (refl, shares_from-later 1 bases (rest_of fees) (omega arith))

-- Split shares are as many as the participants, add up to the price of the court and to the
-- service fee separately, and the totals to both together; the first is the organizer's, alone.
pub compute_split_shares_totals :
    (input : ComputeSplitSharesInput) (others : ℕ) {out : List SplitShare}
    → input.participant_count ≡ integer (pos (suc others))
    → compute_split_shares input ≡ ok out
    → (length out ≡ suc others)
      × (base_sum out ≡ input.base_price_total_cents)
      × (fee_sum out ≡ input.service_fee_cents)
      × (total_sum out ≡ input.base_price_total_cents +ℤ input.service_fee_cents)
      × OrganizerFirst out
unfolding compute_split_shares
compute_split_shares_totals input others {out} count e =
    let (bases, fees, eb, ef, same) =
      with_count-parts input others (subst (λ c. with_count input c ≡ ok out) count e) in
    let (nb, sb, _, _) = split_evenly_lem input.base_price_total_cents (suc others) eb in
    let (nf, sf) = fee_amounts_lem input.allocation input.service_fee_cents others ef in
    let (n, p, q, r) = shares_from-sums 0 bases fees (nb ∙ sym nf) in
    rw (← same) (
      n ∙ nb,
      p ∙ sb,
      q ∙ sf,
      r ∙ ap₂ ◌+ℤ◌ sb sf,
      shares_from-OrganizerFirst bases fees (omega arith),
    )

fee_amounts-FeeBorne :
    (a : SplitServiceFeeAllocation) (fee : ℤ) (others : ℕ) (bases : List ℤ) {fees : List ℤ}
    → fee_amounts a fee others ≡ ok fees
    → length bases ≡ suc others
    → FeeBorne a fee (shares_from 0 bases fees)
unfolding fee_amounts shares_from
fee_amounts-FeeBorne organizer fee others [] e nb = absurd (omega arith)
fee_amounts-FeeBorne organizer fee others (b ∷ bases) {fees} e nb = rw (← ok-injective e) (
  refl,
  shares_from-fees (λ x. x ≡ pos 0) 1 bases (replicate others (pos 0))
      (omega (arith, length-replicate others (pos 0))) (replicate-zero others),
)
fee_amounts-FeeBorne pro_rata fee others bases {fees} e nb =
    let (nf, _, near, _) = split_evenly_lem fee (suc others) e in
    let (n, _, _, _) = shares_from-sums 0 bases fees (nb ∙ sym nf) in
    rw (n, nb)
      (shares_from-fees (λ x. IsNear (floor_div fee (suc others)) x) 0 bases fees (nb ∙ sym nf)
        near)

-- The service fee is borne as the allocation says: by the organizer alone, or evenly to the cent.
pub compute_split_shares-FeeBorne :
    (input : ComputeSplitSharesInput) (others : ℕ) {out : List SplitShare}
    → input.participant_count ≡ integer (pos (suc others))
    → compute_split_shares input ≡ ok out
    → FeeBorne input.allocation input.service_fee_cents out
unfolding compute_split_shares
compute_split_shares-FeeBorne input others {out} count e =
    let (bases, fees, eb, ef, same) =
      with_count-parts input others (subst (λ c. with_count input c ≡ ok out) count e) in
    let (nb, _, _, _) = split_evenly_lem input.base_price_total_cents (suc others) eb in
    rw (← same) (fee_amounts-FeeBorne input.allocation input.service_fee_cents others bases ef nb)
