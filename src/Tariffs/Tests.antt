-- ===== src/Tariffs/Tests.antt =====
-- Concrete rules, requests and times.
use ardenne_padel_v.Prelude.{ℤ, pos, int_laws, ◌-ℤ◌, ℕ, ◌≡◌, refl, true, none, some, List, [], ◌∷◌}
use ardenne_padel_v.Slots.TimeText.{
  time_string_to_minutes, minutes_to_time_string, time_string_to_minutes-minutes_to_time_string,
}
use ardenne_padel_v.Tariffs.{
  double, TariffRuleCandidate, ResolveTariffInput, resolved, price, TariffRule, Court, LocalTime,
  resolve_tariff, quote,
}
use ardenne_padel_v.Tariffs.Order.{IsOrder}
use ardenne_padel_v.Tariffs.Winner.{Resolves, resolve_tariff_lem}
use ardenne_padel_v.Tariffs.Rounding.{Charges, price_bounds}
use ardenne_padel_v.Tariffs.Quoted.{asked_of, Quotes, quote_lem}

-- Ids that compare as their numbers do.
abbrev by_number : ℕ → ℕ → ℤ
by_number a b = pos a -ℤ pos b

by_number-IsOrder : IsOrder by_number
by_number-IsOrder = record {
  self = λ a. omega int_laws;
  turned = λ a b h. omega int_laws;
  chained = λ a b c h k. omega int_laws;
}

-- "08:00", "17:30" and "24:00"
abbrev morning : List ℕ
morning = 48 ∷ 56 ∷ 58 ∷ 48 ∷ 48 ∷ []

abbrev half_past_five : List ℕ
half_past_five = 49 ∷ 55 ∷ 58 ∷ 51 ∷ 48 ∷ []

abbrev midnight : List ℕ
midnight = 50 ∷ 52 ∷ 58 ∷ 48 ∷ 48 ∷ []

half_past_five_read : time_string_to_minutes half_past_five ≡ some 1050
unfolding time_string_to_minutes
half_past_five_read = refl

half_past_five_printed : minutes_to_time_string 1050 ≡ half_past_five
unfolding minutes_to_time_string
half_past_five_printed = refl

time_read_back_example : time_string_to_minutes (minutes_to_time_string 545) ≡ some 545
time_read_back_example = time_string_to_minutes-minutes_to_time_string 545

abbrev weekdays : List ℕ
weekdays = 1 ∷ 2 ∷ 3 ∷ 4 ∷ 5 ∷ []

-- 30.01 for a court of four, on weekdays.
abbrev day_rule : TariffRuleCandidate
day_rule = record {
  id = 5;
  court_id = none;
  court_type = some double;
  days_of_week = weekdays;
  start_time = morning;
  end_time = midnight;
  duration_minutes = 90;
  price_total_cents = some 3001;
  price_per_participant_cents = none;
  reference_capacity = 4;
  priority = pos 1;
}

-- 9.00 for each participant in the evening, with a higher priority.
abbrev evening_rule : TariffRuleCandidate
evening_rule = record day_rule {
  id = 7;
  start_time = half_past_five;
  price_total_cents = none;
  price_per_participant_cents = some 900;
  priority = pos 2;
}

abbrev always : TariffRuleCandidate → TariffRule
always r = record { active = true; valid_from = 0; valid_until = none; candidate = r }

abbrev court_3 : Court
court_3 = record { id = 3; court_type = double }

abbrev evening : LocalTime
evening = record { start_of_day = 1000; weekday = 2; time = half_past_five }

abbrev rules_at_hand : List TariffRule
rules_at_hand = always day_rule ∷ always evening_rule ∷ []

evening_charged :
    quote by_number court_3 (some evening) 90 rules_at_hand
    ≡ resolved (record {
      rule_id = 7;
      price_total_cents = pos 3600;
      price_per_participant_cents = pos 900;
    })
unfolding quote ◌-ℤ◌ time_string_to_minutes
evening_charged = refl

day_rounded :
    price day_rule
    ≡ resolved (record {
      rule_id = 5;
      price_total_cents = pos 3001;
      price_per_participant_cents = pos 750;
    })
unfolding price
day_rounded = refl

price_bounds_example : Charges 5 4 (some 3001) none (price day_rule)
price_bounds_example = price_bounds day_rule

quote_lem_example :
    Quotes by_number court_3 evening 90 rules_at_hand
      (quote by_number court_3 (some evening) 90 rules_at_hand)
quote_lem_example = quote_lem by_number court_3 evening 90 rules_at_hand by_number-IsOrder

abbrev asked : ResolveTariffInput
asked = asked_of court_3 evening 90 (day_rule ∷ evening_rule ∷ [])

resolve_tariff_lem_example : Resolves by_number asked (resolve_tariff by_number asked)
resolve_tariff_lem_example = resolve_tariff_lem by_number asked by_number-IsOrder
