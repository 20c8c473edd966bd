-- ===== src/Prelude/Lists.antt =====
-- Lists measured and searched with Boolean tests and native numbers.
use Prim.Native.Nat.{ℕ, zero, suc, ◌+◌}
use mathlib.Core.Path.{◌≡◌, refl, sym, ap, subst, ◌∙◌}
use mathlib.Core.Logic.{◌⊎◌, inl, inr}
use mathlib.Core.Bool.{Bool, true, false, ◌||◌}
use mathlib.Core.Option.{Option, none, some}
use mathlib.Core.List.{List, [], ◌∷◌, ◌++◌, map}
use native.Mathlib.Omega.{arith}
use ardenne_padel_v.Prelude.Bools.{or_assoc}
use ardenne_padel_v.Prelude.Tests.{◌==◌, if◌then◌else◌, Bool-cases}

module _ {ℓ} {A : Type ℓ} where
  abbrev pub length : List A → ℕ
  length [] = 0
  length (x ∷ xs) = suc (length xs)

  abbrev pub replicate : ℕ → A → List A
  replicate zero a = []
  replicate (suc n) a = a ∷ replicate n a

  abbrev pub All {κ} : (A → Type κ) → List A → Type κ
  All P [] = Unit
  All P (x ∷ xs) = P x × All P xs

  -- `xs.filter(p)`
  abbrev pub filter_by : (A → Bool) → List A → List A
  filter_by p [] = []
  filter_by p (x ∷ xs) = let rest = filter_by p xs in if p x then x ∷ rest else rest

  -- `xs.some(p)`
  abbrev pub any_by : (A → Bool) → List A → Bool
  any_by p [] = false
  any_by p (x ∷ xs) = p x || any_by p xs

  -- `xs.find(p)`
  abbrev pub find_by : (A → Bool) → List A → Option A
  find_by p [] = none
  find_by p (x ∷ xs) = let rest = find_by p xs in if p x then some x else rest

  -- `updateMany({ where: p, data: f })`
  abbrev pub update_where : (A → Bool) → (A → A) → List A → List A
  update_where p f [] = []
  update_where p f (x ∷ xs) = (if p x then f x else x) ∷ update_where p f xs

  -- the `count` that `updateMany` returns
  abbrev pub count_by : (A → Bool) → List A → ℕ
  count_by p [] = 0
  count_by p (x ∷ xs) = (if p x then 1 else 0) + count_by p xs

  pub length-append : (xs ys : List A) → length (xs ++ ys) ≡ length xs + length ys
  length-append [] ys = omega arith
  length-append (x ∷ xs) ys = omega (arith, length-append xs ys)

-- `x` is one of the elements.
abbrev pub Among : {A : Type 0} → A → List A → Type 0
Among x [] = ⊥
Among x (y ∷ ys) = (y ≡ x) ⊎ Among x ys

pub Among-filter_by :
    {A : Type 0} (p : A → Bool) (x : A) (xs : List A)
    → Among x (filter_by p xs)
    → Among x xs × (p x ≡ true)
Among-filter_by p x [] h = absurd h
Among-filter_by p x (y ∷ ys) h = elim (Bool-cases (p y)) [
  | inl kept ↦
      let h' : (y ≡ x) ⊎ Among x (filter_by p ys) = rw kept at h in
      elim h' [
        | inl here ↦ (inl here, subst (λ z. p z ≡ true) here kept)
        | inr later ↦ let (a, t) = Among-filter_by p x ys later in (inr a, t)
      ]
  | inr dropped ↦ let (a, t) = Among-filter_by p x ys (rw dropped at h) in (inr a, t)
]

pub filter_by-Among :
    {A : Type 0} (p : A → Bool) (x : A) (xs : List A)
    → Among x xs
    → p x ≡ true
    → Among x (filter_by p xs)
filter_by-Among p x [] h t = absurd h
filter_by-Among p x (y ∷ ys) (inl here) t = let kept : p y ≡ true = rw here t in rw kept (inl here)
filter_by-Among p x (y ∷ ys) (inr later) t =
    let rest = filter_by-Among p x ys later t in
    elim (Bool-cases (p y)) [ inl kept ↦ rw kept (inr rest) | inr dropped ↦ rw dropped rest ]

pub Among-map :
    {A B : Type 0} (f : A → B) (y : B) (xs : List A)
    → Among y (map f xs)
    → (x : A) × Among x xs × (f x ≡ y)
Among-map f y [] h = absurd h
Among-map f y (x ∷ xs) (inl here) = (x, inl refl, here)
Among-map f y (x ∷ xs) (inr later) =
    let (x', among, e) = Among-map f y xs later in (x', inr among, e)

pub map-Among :
    {A B : Type 0} (f : A → B) (x : A) (xs : List A) → Among x xs → Among (f x) (map f xs)
map-Among f x [] h = absurd h
map-Among f x (y ∷ ys) (inl here) = inl (ap f here)
map-Among f x (y ∷ ys) (inr later) = inr (map-Among f x ys later)

-- What holds of all elements may be weakened.
pub All-weaken {ℓ κ} :
    {A : Type 0} (P : A → Type ℓ) (Q : A → Type κ) (xs : List A)
    → ((x : A) → P x → Q x)
    → All P xs
    → All Q xs
All-weaken P Q [] f a = tt
All-weaken P Q (x ∷ xs) f a = (f x a.0, All-weaken P Q xs f a.1)

-- `xs.includes(n)` on numbers
abbrev pub includes : List ℕ → ℕ → Bool
includes xs n = any_by (λ x. x == n) xs

pub includes-append :
    (xs ys : List ℕ) (n : ℕ) → includes (xs ++ ys) n ≡ (includes xs n || includes ys n)
includes-append [] ys n = refl
includes-append (x ∷ xs) ys n =
    ap (λ b. x == n || b) (includes-append xs ys n)
    ∙ sym (or_assoc (x == n) (includes xs n) (includes ys n))
