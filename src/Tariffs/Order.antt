-- ===== src/Tariffs/Order.antt =====
-- The order of `pickWinningRule` (tariff-resolver.ts), and the first of a list sorted by it.
use ardenne_padel_v.Prelude.{
  Bool-cases, Among, ℤ, pos, pos_part, neg_part, ◌≤ℤ◌, ◌<ℤ◌, leb_ℤ, ltb_ℤ, ◌==ℤ◌, int_laws, ==ℤ_iff,
  ltb_ℤ→lt, ltb_ℤ→ge, leb_ℤ→le, leb_ℤ→gt, ◌-ℤ◌, ℕ, ◌≡◌, refl, sym, ap, ◌∙◌, subst, ◌⊎◌, inl, inr,
  true, false, List, [], ◌∷◌, arith,
}
use ardenne_padel_v.Tariffs.{TariffRuleCandidate, compare_rules, insert_rule, sort_rules}

-- Rule `a` goes before rule `b`: it has a higher priority, or the same one and an id that is not
-- later.
abbrev pub GoesBefore : (ℕ → ℕ → ℤ) → TariffRuleCandidate → TariffRuleCandidate → Type 0
GoesBefore locale_compare a b =
    (b.priority <ℤ a.priority) ⊎ ((a.priority ≡ b.priority) × (locale_compare a.id b.id ≤ℤ pos 0))

-- What is documented of `localeCompare`: it orders texts.
pub record IsOrder (locale_compare : ℕ → ℕ → ℤ) : Type 0 where
  pub self : (a : ℕ) → locale_compare a a ≤ℤ pos 0
  pub turned : (a b : ℕ) → pos 0 <ℤ locale_compare a b → locale_compare b a ≤ℤ pos 0
  pub chained :
      (a b c : ℕ)
      → locale_compare a b ≤ℤ pos 0
      → locale_compare b c ≤ℤ pos 0
      → locale_compare a c ≤ℤ pos 0

no_difference : (a b : ℤ) → b -ℤ a ≡ pos 0 → a ≡ b
no_difference a b e = omega (int_laws, ap pos_part e, ap neg_part e)

below : (a b : ℤ) → (b -ℤ a ==ℤ pos 0) ≡ false → b -ℤ a ≤ℤ pos 0 → b <ℤ a
below a b apart le = elim (Bool-cases (ltb_ℤ b a)) [
  | inl lower ↦ ltb_ℤ→lt b a lower
  | inr not_lower ↦
      let ge = ltb_ℤ→ge b a not_lower in
      let even : b -ℤ a ≡ pos 0 = omega int_laws in cc (apart, (==ℤ_iff (b -ℤ a) (pos 0)).1 even)
]

module _ (locale_compare : ℕ → ℕ → ℤ) (order : IsOrder locale_compare) where
  GoesBefore-self : (a : TariffRuleCandidate) → GoesBefore locale_compare a a
  GoesBefore-self a = inr (refl, order.self a.id)

  GoesBefore-trans :
      (a b c : TariffRuleCandidate)
      → GoesBefore locale_compare a b
      → GoesBefore locale_compare b c
      → GoesBefore locale_compare a c
  GoesBefore-trans a b c (inl h) (inl k) = inl (omega arith)
  GoesBefore-trans a b c (inl h) (inr k) = inl (subst (λ p. p <ℤ a.priority) k.0 h)
  GoesBefore-trans a b c (inr h) (inl k) = inl (subst (λ p. c.priority <ℤ p) (sym h.0) k)
  GoesBefore-trans a b c (inr h) (inr k) = inr (h.0 ∙ k.0, order.chained a.id b.id c.id h.1 k.1)

  compared_before :
      (a b : TariffRuleCandidate)
      → leb_ℤ (compare_rules locale_compare a b) (pos 0) ≡ true
      → GoesBefore locale_compare a b
  compared_before a b t = elim (Bool-cases (b.priority -ℤ a.priority ==ℤ pos 0)) [
    | inl tie ↦
        let even = (==ℤ_iff (b.priority -ℤ a.priority) (pos 0)).0 tie in
        inr (
          no_difference a.priority b.priority even,
          leb_ℤ→le (locale_compare a.id b.id) (pos 0) (rw tie at t),
        )
    | inr apart ↦
        let t' : leb_ℤ (b.priority -ℤ a.priority) (pos 0) ≡ true = rw apart at t in
        inl (below a.priority b.priority apart (leb_ℤ→le (b.priority -ℤ a.priority) (pos 0) t'))
  ]

  compared_after :
      (a b : TariffRuleCandidate)
      → leb_ℤ (compare_rules locale_compare a b) (pos 0) ≡ false
      → GoesBefore locale_compare b a
  compared_after a b t = elim (Bool-cases (b.priority -ℤ a.priority ==ℤ pos 0)) [
    | inl tie ↦
        let even = (==ℤ_iff (b.priority -ℤ a.priority) (pos 0)).0 tie in
        inr (
          sym (no_difference a.priority b.priority even),
          order.turned a.id b.id (leb_ℤ→gt (locale_compare a.id b.id) (pos 0) (rw tie at t)),
        )
    | inr apart ↦
        let t' : leb_ℤ (b.priority -ℤ a.priority) (pos 0) ≡ false = rw apart at t in
        let gt = leb_ℤ→gt (b.priority -ℤ a.priority) (pos 0) t' in inl (omega int_laws)
  ]

  -- The first rule of a sorted list goes before all others.
  insert_rule-first :
      (a b : TariffRuleCandidate) (bs : List TariffRuleCandidate)
      → (w : TariffRuleCandidate) × (rest : List TariffRuleCandidate) × (insert_rule locale_compare
            a
            (b ∷ bs)
          ≡ w ∷ rest)
        × (((w ≡ a) × GoesBefore locale_compare a b) ⊎ ((w ≡ b) × GoesBefore locale_compare b a))
  unfolding insert_rule
  insert_rule-first a b bs = elim (Bool-cases (leb_ℤ (compare_rules locale_compare a b) (pos 0))) [
    | inl t ↦ (a, b ∷ bs, rw t, inl (refl, compared_before a b t))
    | inr t ↦ (b, insert_rule locale_compare a bs, rw t, inr (refl, compared_after a b t))
  ]

  pub sort_rules-first :
      (a : TariffRuleCandidate) (rest : List TariffRuleCandidate)
      → (w : TariffRuleCandidate) × (others : List TariffRuleCandidate) × (sort_rules locale_compare
            (a ∷ rest)
          ≡ w ∷ others)
        × Among w (a ∷ rest)
        × ((r : TariffRuleCandidate) → Among r (a ∷ rest) → GoesBefore locale_compare w r)
  unfolding sort_rules
  sort_rules-first a [] = (
    a,
    [],
    refl,
    inl refl,
    λ r among. elim among [
      | inl here ↦ subst (GoesBefore locale_compare a) here (GoesBefore-self a)
      | inr later ↦ absurd later
    ],
  )
  sort_rules-first a (b ∷ rest) =
      let (v, others, sorted, among, least) = sort_rules-first b rest in
      let (w, others', inserted, which) = insert_rule-first a v others in
      elim which [
        | inl (e, before) ↦ (
          w,
          others',
          rw sorted inserted,
          inl (sym e),
          λ r among. elim among [
            | inl here ↦ subst (GoesBefore locale_compare w) (e ∙ here) (GoesBefore-self w)
            | inr later ↦
                GoesBefore-trans w v r (subst (λ x. GoesBefore locale_compare x v) (sym e) before)
                  (least r later)
          ],
        )
        | inr (e, before) ↦ (
          w,
          others',
          rw sorted inserted,
          inr (subst (λ x. Among x (b ∷ rest)) (sym e) among),
          λ r among. elim among [
            | inl here ↦
                subst (λ x. GoesBefore locale_compare x r) (sym e)
                  (subst (GoesBefore locale_compare v) here before)
            | inr later ↦ subst (λ x. GoesBefore locale_compare x r) (sym e) (least r later)
          ],
        )
      ]
