-- ===== src/Money/Tests.antt =====
-- Concrete splits.
use ardenne_padel_v.Prelude.{length, All, pos, sum_ℤ, ◌+ℤ◌, ◌-ℤ◌, ◌≡◌, refl, [], ◌∷◌}
use ardenne_padel_v.Money.{floor_div, times, split_evenly}
use ardenne_padel_v.Money.Even.{IsNear, IsDescending, split_evenly_lem}

split_evenly_lem_example :
    (length (pos 34 ∷ pos 33 ∷ pos 33 ∷ []) ≡ 3)
    × (sum_ℤ (pos 34 ∷ pos 33 ∷ pos 33 ∷ []) ≡ pos 100)
    × All (IsNear (floor_div (pos 100) 3)) (pos 34 ∷ pos 33 ∷ pos 33 ∷ [])
    × IsDescending (pos 34 ∷ pos 33 ∷ pos 33 ∷ [])
unfolding split_evenly floor_div times ◌+ℤ◌ ◌-ℤ◌
split_evenly_lem_example = split_evenly_lem (pos 100) 3 refl
