-- ===== src/Tariffs/Rounding.antt =====
-- What a rule charges, and how its rounding is bounded (tariff-resolver.ts).
use native.Mathlib.Nat.{div-add-mod, mod-lt, mul_assoc}
use ardenne_padel_v.Prelude.{
  pos, ℕ, zero, suc, ◌+◌, ◌*◌, ◌/◌, ◌≤◌, ◌<◌, ◌≡◌, refl, Option, none, some, arith,
}
use ardenne_padel_v.Tariffs.{
  TariffRuleCandidate, Resolution, resolved, failed, round_quotient, price, priced,
}

-- `Math.round` of a quotient is within half of the divisor, and rounds a half up.
abbrev pub Rounds : ℕ → ℕ → ℕ → Type 0
Rounds n k q = (2 * (k * q) ≤ 2 * n + k) × (2 * n < 2 * (k * q) + k)

rounded-Rounds : (n k : ℕ) → Rounds n (suc k) ((2 * n + suc k) / (2 * suc k))
rounded-Rounds n k =
    let q = (2 * n + suc k) / (2 * suc k) in
    let e = div-add-mod (2 * n + suc k) (2 * suc k) in
    let below = mod-lt (2 * n + suc k) {m = 2 * suc k} (omega arith) in
    let same = mul_assoc 2 (suc k) q in (omega arith, omega arith)

abbrev pub tariff : ℕ → ℕ → ℕ → Resolution
tariff id total each =
    resolved (record {
      rule_id = id;
      price_total_cents = pos total;
      price_per_participant_cents = pos each;
    })

-- The answer `r` for a rule with the given id, capacity and two prices
abbrev pub Charges : ℕ → ℕ → Option ℕ → Option ℕ → Resolution → Type 0
Charges id zero (some total) _ r = r ≡ failed
Charges id (suc k) (some total) _ r =
    (each : ℕ) × (r ≡ tariff id total each) × Rounds total (suc k) each
Charges id capacity none (some each) r = r ≡ tariff id (each * capacity) each
Charges id capacity none none r = r ≡ failed

priced-Charges :
    (id capacity : ℕ) (total each : Option ℕ)
    → Charges id capacity total each (priced id capacity total each)
unfolding round_quotient
priced-Charges id zero (some total) each = refl
priced-Charges id (suc k) (some total) each =
    ((2 * total + suc k) / (2 * suc k), refl, rounded-Rounds total k)
priced-Charges id zero none (some each) = refl
priced-Charges id (suc k) none (some each) = refl
priced-Charges id zero none none = refl
priced-Charges id (suc k) none none = refl

-- A rule with a total charges that total, and each participant its quotient by the capacity, less
-- than half a cent too little and at most half a cent too much; with a capacity of zero it throws. A rule
-- with only a price for each participant charges it for the whole capacity. A rule with neither
-- throws.
pub price_bounds :
    (rule : TariffRuleCandidate)
    → Charges rule.id rule.reference_capacity rule.price_total_cents
        rule.price_per_participant_cents
        (price rule)
unfolding price
price_bounds rule =
    priced-Charges rule.id rule.reference_capacity rule.price_total_cents
      rule.price_per_participant_cents
