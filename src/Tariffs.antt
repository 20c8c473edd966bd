-- ===== src/Tariffs.antt =====
-- The price of a booking: apps/api/src/modules/pricing (tariff-resolver.ts, pricing.service.ts,
-- pricing.repository.ts). Prices are numbers of cents and capacities are numbers, as the forms that
-- write rules require. `localeCompare` on ids and luxon's conversion to local time are arguments.
pub mod Covers
pub mod Order
pub mod Winner
pub mod Rounding
pub mod Quoted
mod Tests
use ardenne_padel_v.Prelude.{
  ltb, leb, ◌==◌, if◌then◌else◌, filter_by, includes, ℤ, pos, leb_ℤ, ◌==ℤ◌, ◌-ℤ◌, Number, integer,
  fraction, ℕ, zero, suc, ◌+◌, ◌*◌, ◌/◌, ◌%◌, Bool, true, false, not, ◌&&◌, Option, none, some,
  List, [], ◌∷◌, map,
}
use ardenne_padel_v.Slots.TimeText.{time_string_to_minutes}

pub data CourtType : Type 0 where
  simple double : CourtType

pub record TariffRuleCandidate : Type 0 where
  pub id : ℕ
  pub court_id : Option ℕ
  pub court_type : Option CourtType
  pub days_of_week : List ℕ
  pub start_time : List ℕ
  pub end_time : List ℕ
  pub duration_minutes : ℕ
  pub price_total_cents : Option ℕ
  pub price_per_participant_cents : Option ℕ
  pub reference_capacity : ℕ
  pub priority : ℤ

pub record ResolveTariffInput : Type 0 where
  pub court_id : ℕ
  pub court_type : Option CourtType
  pub day_of_week : ℕ
  pub start_time : List ℕ
  pub duration_minutes : ℕ
  pub rules : List TariffRuleCandidate

-- The currency is always EUR.
pub record ResolvedTariff : Type 0 where
  pub rule_id : ℕ
  pub price_total_cents : ℤ
  pub price_per_participant_cents : ℤ

-- A tariff, `NoTariffRuleFoundError`, or another exception.
pub data Resolution : Type 0 where
  resolved : ResolvedTariff → Resolution
  no_tariff_rule_found : Resolution
  failed : Resolution

-- `a === null || a === b`
abbrev pub unset_or_id : Option ℕ → ℕ → Bool
unset_or_id none b = true
unset_or_id (some a) b = a == b

abbrev pub same_court_type : CourtType → CourtType → Bool
same_court_type simple simple = true
same_court_type double double = true
same_court_type _ _ = false

abbrev pub unset_or_type : Option CourtType → Option CourtType → Bool
unset_or_type none b = true
unset_or_type (some a) none = false
unset_or_type (some a) (some b) = same_court_type a b

-- `requested >= start && requested < end`, false if one is NaN
abbrev pub within : Option ℕ → Option ℕ → Option ℕ → Bool
within (some start) (some end) (some requested) = leb start requested && ltb requested end
within _ _ _ = false

-- `matches`
unfoldable pub matches : TariffRuleCandidate → ResolveTariffInput → Bool
matches rule input =
    if not (unset_or_id rule.court_id input.court_id)
    then false
    else if not (unset_or_type rule.court_type input.court_type)
    then false
    else if not (includes rule.days_of_week input.day_of_week)
    then false
    else if not (rule.duration_minutes == input.duration_minutes)
    then false
    else within (time_string_to_minutes rule.start_time) (time_string_to_minutes rule.end_time)
        (time_string_to_minutes input.start_time)

-- `Math.round(n / k)` of a number of cents; dividing by 0 gives no integer.
unfoldable pub round_quotient : ℕ → ℕ → Number
round_quotient n zero = fraction
round_quotient n (suc k) = integer (pos ((2 * n + suc k) / (2 * suc k)))

-- The two `assertCents` and the answer
abbrev tariff_of : ℕ → Number → Number → Resolution
tariff_of id (integer total) (integer each) =
    resolved
      (record { rule_id = id; price_total_cents = total; price_per_participant_cents = each })
tariff_of id (integer total) fraction = failed
tariff_of id fraction _ = failed

abbrev priced : ℕ → ℕ → Option ℕ → Option ℕ → Resolution
priced id capacity (some total) _ =
    tariff_of id (integer (pos total)) (round_quotient total capacity)
priced id capacity none (some each) =
    tariff_of id (integer (pos (each * capacity))) (integer (pos each))
priced id capacity none none = failed

-- What the winning rule charges
unfoldable pub price : TariffRuleCandidate → Resolution
unfolding round_quotient
price rule =
    priced rule.id rule.reference_capacity rule.price_total_cents rule.price_per_participant_cents

-- The columns of a rule that only the query reads, and those of the candidate.
pub record TariffRule : Type 0 where
  pub active : Bool
  pub valid_from : ℕ
  pub valid_until : Option ℕ
  pub candidate : TariffRuleCandidate

-- `validUntil` is null or not before the date.
abbrev pub lasts_until : Option ℕ → ℕ → Bool
lasts_until none date = true
lasts_until (some last) date = leb date last

-- The court's own rule, one for its type, or one for all courts
abbrev pub concerns : ℕ → CourtType → Option ℕ → Option CourtType → Bool
concerns court type (some c) _ = c == court
concerns court type none (some t) = same_court_type t type
concerns court type none none = true

-- The `where` of `findActiveRules`
unfoldable pub is_current : ℕ → CourtType → ℕ → TariffRule → Bool
is_current court type date r =
    r.active
    && leb r.valid_from date
    && lasts_until r.valid_until date
    && concerns court type r.candidate.court_id r.candidate.court_type

-- `findActiveRules`
unfoldable pub find_active_rules : ℕ → CourtType → ℕ → List TariffRule → List TariffRule
unfolding is_current
find_active_rules court type date rules = filter_by (is_current court type date) rules

pub record Court : Type 0 where
  pub id : ℕ
  pub court_type : CourtType

-- What luxon makes of a valid instant: the start of its day, its weekday from 1 (Monday) to 7, and
-- its time as HH:mm.
pub record LocalTime : Type 0 where
  pub start_of_day : ℕ
  pub weekday : ℕ
  pub time : List ℕ

-- The order of the ids, `a.id.localeCompare(b.id)`, is a parameter.
module _ (locale_compare : ℕ → ℕ → ℤ) where
  -- The comparison that `pickWinningRule` sorts by
  abbrev pub compare_rules : TariffRuleCandidate → TariffRuleCandidate → ℤ
  compare_rules a b =
      let d = b.priority -ℤ a.priority in if d ==ℤ pos 0 then locale_compare a.id b.id else d

  -- `sort(compare)`, which is stable
  unfoldable pub insert_rule :
      TariffRuleCandidate → List TariffRuleCandidate → List TariffRuleCandidate
  insert_rule a [] = a ∷ []
  insert_rule a (b ∷ bs) =
      let rest = insert_rule a bs in
      if leb_ℤ (compare_rules a b) (pos 0) then a ∷ b ∷ bs else b ∷ rest

  unfoldable pub sort_rules : List TariffRuleCandidate → List TariffRuleCandidate
  unfolding insert_rule
  sort_rules [] = []
  sort_rules (a ∷ rest) = insert_rule a (sort_rules rest)

  abbrev price_first : List TariffRuleCandidate → Resolution
  price_first [] = no_tariff_rule_found
  price_first (rule ∷ _) = price rule

  -- `resolveTariff`
  unfoldable pub resolve_tariff : ResolveTariffInput → Resolution
  unfolding sort_rules price matches
  resolve_tariff input = price_first (sort_rules (filter_by (λ r. matches r input) input.rules))

  -- `PricingService.quote`; `none` is an instant that luxon refuses.
  unfoldable pub quote : Court → Option LocalTime → ℕ → List TariffRule → Resolution
  unfolding find_active_rules resolve_tariff
  quote court none duration rules = failed
  quote court (some local) duration rules = resolve_tariff (record {
    court_id = court.id;
    court_type = some court.court_type;
    day_of_week = local.weekday % 7;
    start_time = local.time;
    duration_minutes = duration;
    rules =
        map (λ (r : TariffRule). r.candidate)
          (find_active_rules court.id court.court_type local.start_of_day rules);
  })
