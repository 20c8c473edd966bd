-- ===== src/SplitShares.antt =====
-- apps/api/src/modules/bookings/split-calculator.ts: the shares of a split booking. Prices and fees
-- are integers of cents (database and configuration columns); the count is checked by the code.
pub mod Totals
mod Tests
use ardenne_padel_v.Prelude.{
  ◌==◌, replicate, ℤ, pos, sum_ℤ, ◌+ℤ◌, plain_error, Result, ok, err, Number, integer, ℕ, suc, ◌+◌,
  Bool, List, [], ◌∷◌, map,
}
use ardenne_padel_v.Money.{split_evenly}

pub data SplitServiceFeeAllocation : Type 0 where
  organizer pro_rata : SplitServiceFeeAllocation

pub record SplitShare : Type 0 where
  pub is_organizer : Bool
  pub base_amount_cents : ℤ
  pub service_fee_amount_cents : ℤ
  pub total_amount_cents : ℤ

pub record ComputeSplitSharesInput : Type 0 where
  pub base_price_total_cents : ℤ
  pub participant_count : Number
  pub service_fee_cents : ℤ
  pub allocation : SplitServiceFeeAllocation

infixl 5 ◌>>=◌
abbrev ◌>>=◌ : {A B : Type 0} → Result A → (A → Result B) → Result B
ok a >>= f = f a
err e >>= f = err e

-- `feeAmounts`, where the count is `suc others`
fee_amounts : SplitServiceFeeAllocation → ℤ → ℕ → Result (List ℤ)
fee_amounts organizer fee others = ok (fee ∷ replicate others (pos 0))
fee_amounts pro_rata fee others = split_evenly (integer fee) (integer (pos (suc others)))

-- `feeAmounts[index] ?? 0` for the first of the fees that are left
abbrev fee_or_zero : List ℤ → ℤ
fee_or_zero [] = pos 0
fee_or_zero (fee ∷ _) = fee

abbrev rest_of : List ℤ → List ℤ
rest_of [] = []
rest_of (_ ∷ fees) = fees

-- `baseAmounts.map(…)`
shares_from : ℕ → List ℤ → List ℤ → List SplitShare
shares_from index [] fees = []
shares_from index (base ∷ bases) fees =
    record {
      is_organizer = index == 0;
      base_amount_cents = base;
      service_fee_amount_cents = fee_or_zero fees;
      total_amount_cents = base +ℤ fee_or_zero fees;
    }
    ∷ shares_from (index + 1) bases (rest_of fees)

with_count : ComputeSplitSharesInput → Number → Result (List SplitShare)
unfolding fee_amounts shares_from
with_count input (integer (pos (suc others))) = do
  bases ← split_evenly (integer input.base_price_total_cents) (integer (pos (suc others)))
  fees ← fee_amounts input.allocation input.service_fee_cents others
  ok (shares_from 0 bases fees)
with_count input _ = err plain_error

-- `computeSplitShares`
unfoldable pub compute_split_shares : ComputeSplitSharesInput → Result (List SplitShare)
unfolding with_count
compute_split_shares input = with_count input input.participant_count

-- `shares.slice(1).reduce((sum, s) => sum + s.totalAmountCents, 0)`, what the organizer guarantees
-- (payments/split-checkout.service.ts)
unfoldable pub guaranteed_cents : List SplitShare → ℤ
guaranteed_cents [] = pos 0
guaranteed_cents (_ ∷ others) = sum_ℤ (map (λ s. s.total_amount_cents) others)
