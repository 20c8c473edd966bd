-- ===== src/Tariffs/Quoted.antt =====
-- The rule that a quote charges by stands in the query of `findActiveRules` (pricing.repository.ts).
use ardenne_padel_v.Prelude.{
  leb, ==_iff, and_true, filter_by, Among, Among-filter_by, filter_by-Among, Among-map, map-Among,
  ℤ, ℕ, ◌%◌, ◌≤◌, ◌≡◌, refl, ◌⊎◌, inl, inr, true, Option, none, some, some-injective, List, [], map,
  arith,
}
use ardenne_padel_v.Tariffs.{
  CourtType, TariffRuleCandidate, ResolveTariffInput, Resolution, no_tariff_rule_found, price,
  TariffRule, lasts_until, concerns, is_current, find_active_rules, Court, LocalTime, quote,
}
use ardenne_padel_v.Tariffs.Covers.{Covers, same_court_type_refl}
use ardenne_padel_v.Tariffs.Order.{GoesBefore, IsOrder}
use ardenne_padel_v.Tariffs.Winner.{resolve_tariff_lem}

-- A rule is in force on a day: switched on, begun and not ended.
pub record IsInForce (date : ℕ) (r : TariffRule) : Type 0 where
  pub switched_on : r.active ≡ true
  pub begun : r.valid_from ≤ date
  pub not_ended : (last : ℕ) → r.valid_until ≡ some last → date ≤ last

-- What is asked for at a court, a local time and a duration, among some rules
abbrev pub asked_of : Court → LocalTime → ℕ → List TariffRuleCandidate → ResolveTariffInput
asked_of court local duration rules = record {
  court_id = court.id;
  court_type = some court.court_type;
  day_of_week = local.weekday % 7;
  start_time = local.time;
  duration_minutes = duration;
  rules = rules;
}

-- A rule is in force on the day and covers what is asked for.
abbrev pub Applies : Court → LocalTime → ℕ → TariffRule → Type 0
Applies court local duration r =
    IsInForce local.start_of_day r × Covers r.candidate (asked_of court local duration [])

-- What `quote` has answered: with no rule in force for the court and the time it throws; or it
-- charges by one, and no other such rule goes before it.
abbrev pub Quotes : (ℕ → ℕ → ℤ) → Court → LocalTime → ℕ → List TariffRule → Resolution → Type 0
Quotes locale_compare court local duration rules r =
    (((rule : TariffRule) → Among rule rules → ¬ Applies court local duration rule)
      × (r ≡ no_tariff_rule_found))
    ⊎ ((w : TariffRule) × Among w rules
        × Applies court local duration w
        × ((rule : TariffRule)
            → Among rule rules
            → Applies court local duration rule
            → GoesBefore locale_compare w.candidate rule.candidate)
        × (r ≡ price w.candidate))

Covers-among :
    (court : Court) (local : LocalTime) (duration : ℕ) (xs ys : List TariffRuleCandidate)
    (r : TariffRuleCandidate)
    → Covers r (asked_of court local duration xs)
    → Covers r (asked_of court local duration ys)
Covers-among court local duration xs ys r c = record {
  court = c.court;
  court_kind = c.court_kind;
  day = c.day;
  duration = c.duration;
  hours = c.hours;
}

lasts_until→ :
    (o : Option ℕ) (date : ℕ) → lasts_until o date ≡ true → (last : ℕ) → o ≡ some last → date ≤ last
lasts_until→ none date t last e = cc
lasts_until→ (some a) date t last e = ground (arith, t)

→lasts_until :
    (o : Option ℕ) (date : ℕ)
    → ((last : ℕ) → o ≡ some last → date ≤ last)
    → lasts_until o date ≡ true
→lasts_until none date h = refl
→lasts_until (some a) date h = let le = h a refl in ground arith

→concerns :
    (court : Court) (id : Option ℕ) (type : Option CourtType)
    → ((c : ℕ) → id ≡ some c → c ≡ court.id)
    → ((t : CourtType) → type ≡ some t → some court.court_type ≡ some t)
    → concerns court.id court.court_type id type ≡ true
→concerns court (some c) type h k = (==_iff c court.id).1 (h c refl)
→concerns court none (some t) h k = rw (some-injective _ _ (k t refl)) (same_court_type_refl t)
→concerns court none none h k = refl

leb_of : {a b : ℕ} → a ≤ b → leb a b ≡ true
leb_of h = ground arith

is_current→IsInForce :
    (court : Court) (date : ℕ) (r : TariffRule)
    → is_current court.id court.court_type date r ≡ true
    → IsInForce date r
unfolding is_current
is_current→IsInForce court date r t =
    let (t1, _) =
      and_true _ (concerns court.id court.court_type r.candidate.court_id r.candidate.court_type)
        t in
    let (t2, lasting) = and_true _ (lasts_until r.valid_until date) t1 in
    let (on, begun) = and_true r.active (leb r.valid_from date) t2 in
    record {
      switched_on = on;
      begun = ground arith;
      not_ended = lasts_until→ r.valid_until date lasting;
    }

Applies→is_current :
    (court : Court) (local : LocalTime) (duration : ℕ) (r : TariffRule)
    → Applies court local duration r
    → is_current court.id court.court_type local.start_of_day r ≡ true
unfolding is_current
Applies→is_current court local duration r (f, c) =
    rw (f.switched_on, leb_of f.begun, →lasts_until r.valid_until local.start_of_day f.not_ended)
      (→concerns court r.candidate.court_id r.candidate.court_type c.court c.court_kind)

-- With any order of the ids that is an order, `quote` of a valid instant charges by a rule that is
-- in force on the local day and covers the court, its type, the weekday, the duration and the local
-- time, and that goes before all other such rules: it has a higher priority, or the same and an id
-- that is not later. It throws `NoTariffRuleFoundError` only if there is no such rule.
pub quote_lem :
    (locale_compare : ℕ → ℕ → ℤ) (court : Court) (local : LocalTime) (duration : ℕ)
    (rules : List TariffRule)
    → IsOrder locale_compare
    → Quotes locale_compare court local duration rules
        (quote locale_compare court (some local) duration rules)
unfolding quote find_active_rules
quote_lem locale_compare court local duration rules order =
    let current = filter_by (is_current court.id court.court_type local.start_of_day) rules in
    let candidates = map (λ (r : TariffRule). r.candidate) current in
    let stands : (rule : TariffRule)
        → Among rule rules
        → Applies court local duration rule
        → Among rule.candidate candidates =
      λ rule among a.
        map-Among (λ (r : TariffRule). r.candidate) rule current
          (filter_by-Among _ rule rules among (Applies→is_current court local duration rule a)) in
    elim (resolve_tariff_lem locale_compare (asked_of court local duration candidates) order) [
      | inl (nothing, e) ↦ inl (
        λ rule among a.
            nothing rule.candidate (stands rule among a)
              (Covers-among court local duration [] candidates rule.candidate a.1),
        e,
      )
      | inr (w, among, covers, first, e) ↦
          let (rule, among_current, same) =
            Among-map (λ (r : TariffRule). r.candidate) w current among in
          let (among_rules, now) = Among-filter_by _ rule rules among_current in
          inr (
            rule,
            among_rules,
            (
              is_current→IsInForce court local.start_of_day rule now,
              Covers-among court local duration candidates [] rule.candidate (rw same covers),
            ),
            λ other among' a. rw same (
                first other.candidate (stands other among' a)
                  (Covers-among court local duration [] candidates other.candidate a.1)),
            rw same e,
          )
    ]
