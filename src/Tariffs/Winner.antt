-- ===== src/Tariffs/Winner.antt =====
-- Which rule `resolveTariff` (tariff-resolver.ts) charges by.
use ardenne_padel_v.Prelude.{
  filter_by, Among, Among-filter_by, filter_by-Among, ℤ, ℕ, ◌≡◌, refl, sym, subst, ◌⊎◌, inl, inr,
  List, [], ◌∷◌,
}
use ardenne_padel_v.Tariffs.{
  TariffRuleCandidate, ResolveTariffInput, Resolution, no_tariff_rule_found, matches, price,
  sort_rules, resolve_tariff,
}
use ardenne_padel_v.Tariffs.Covers.{Covers, matches→Covers, Covers→matches}
use ardenne_padel_v.Tariffs.Order.{GoesBefore, IsOrder, sort_rules-first}

-- What `resolveTariff` has answered.
abbrev pub Resolves : (ℕ → ℕ → ℤ) → ResolveTariffInput → Resolution → Type 0
Resolves locale_compare input r =
    (((rule : TariffRuleCandidate) → Among rule input.rules → ¬ Covers rule input)
      × (r ≡ no_tariff_rule_found))
    ⊎ ((w : TariffRuleCandidate) × Among w input.rules
        × Covers w input
        × ((rule : TariffRuleCandidate)
            → Among rule input.rules
            → Covers rule input
            → GoesBefore locale_compare w rule)
        × (r ≡ price w))

module _ (locale_compare : ℕ → ℕ → ℤ) (order : IsOrder locale_compare) where
  Resolves-first :
      (input : ResolveTariffInput) (found : List TariffRuleCandidate)
      → filter_by (λ r. matches r input) input.rules ≡ found
      → Resolves locale_compare input (resolve_tariff locale_compare input)
  unfolding resolve_tariff
  Resolves-first input [] e =
      let nothing : (rule : TariffRuleCandidate) → Among rule input.rules → ¬ Covers rule input =
        λ rule among c. subst (Among rule) e (
          filter_by-Among (λ r. matches r input) rule input.rules among
            (Covers→matches rule input c)) in
      inl (nothing, unfold sort_rules in rw e)
  Resolves-first input (a ∷ rest) e =
      let (w, others, sorted, among, least) = sort_rules-first locale_compare order a rest in
      let (stands, matched) =
        Among-filter_by (λ r. matches r input) w input.rules (subst (Among w) (sym e) among) in
      inr (
        w,
        stands,
        matches→Covers w input matched,
        λ rule among' c. least rule (
            subst (Among rule) e (
              filter_by-Among (λ r. matches r input) rule input.rules among'
                (Covers→matches rule input c))),
        rw (e, sorted),
      )

-- With any order of the ids that is an order, `resolveTariff` throws `NoTariffRuleFoundError` only
-- if no rule covers the court, its type, the day, the duration and the time that are asked for.
-- Otherwise it charges by a rule that does, and that has the highest priority of those, and among
-- those with this priority an id that no other precedes.
pub resolve_tariff_lem :
    (locale_compare : ℕ → ℕ → ℤ) (input : ResolveTariffInput)
    → IsOrder locale_compare
    → Resolves locale_compare input (resolve_tariff locale_compare input)
resolve_tariff_lem locale_compare input order =
    Resolves-first locale_compare order input (filter_by (λ r. matches r input) input.rules) refl
