-- ===== src/SplitShares/Tests.antt =====
-- A court of 40.00 with a fee of 1.50, for four.
use ardenne_padel_v.Prelude.{
  length, pos, ◌+ℤ◌, ◌-ℤ◌, ok, integer, ℕ, ◌≡◌, refl, Bool, true, false, List, [], ◌∷◌,
}
use ardenne_padel_v.Money.{floor_div, times, split_evenly}
use ardenne_padel_v.SplitShares.{
  organizer, SplitShare, ComputeSplitSharesInput, compute_split_shares,
}
use ardenne_padel_v.SplitShares.Totals.{
  base_sum, fee_sum, total_sum, OrganizerFirst, FeeBorne, compute_split_shares_totals,
  compute_split_shares-FeeBorne,
}

abbrev sample_input : ComputeSplitSharesInput
sample_input = record {
  base_price_total_cents = pos 4001;
  participant_count = integer (pos 4);
  service_fee_cents = pos 150;
  allocation = organizer;
}

abbrev share : Bool → ℕ → ℕ → ℕ → SplitShare
share mine base fee total = record {
  is_organizer = mine;
  base_amount_cents = pos base;
  service_fee_amount_cents = pos fee;
  total_amount_cents = pos total;
}

abbrev sample_shares : List SplitShare
sample_shares =
    share true 1001 150 1151
    ∷ share false 1000 0 1000
    ∷ share false 1000 0 1000
    ∷ share false 1000 0 1000
    ∷ []

sample_computed : compute_split_shares sample_input ≡ ok sample_shares
unfolding compute_split_shares split_evenly floor_div times ◌+ℤ◌ ◌-ℤ◌
sample_computed = refl

compute_split_shares_totals_example :
    (length sample_shares ≡ 4)
    × (base_sum sample_shares ≡ pos 4001)
    × (fee_sum sample_shares ≡ pos 150)
    × (total_sum sample_shares ≡ pos 4001 +ℤ pos 150)
    × OrganizerFirst sample_shares
compute_split_shares_totals_example =
    compute_split_shares_totals sample_input 3 refl sample_computed

compute_split_shares-FeeBorne_example : FeeBorne organizer (pos 150) sample_shares
compute_split_shares-FeeBorne_example =
    compute_split_shares-FeeBorne sample_input 3 refl sample_computed
