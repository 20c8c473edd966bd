-- ===== src/Prelude/Keyed.antt =====
-- Tables whose rows have a unique key: the row with a key, and updates of it.
use ardenne_padel_v.Prelude.Tests.{◌==◌, if◌then◌else◌, ==_iff, Bool-cases}
use ardenne_padel_v.Prelude.Lists.{All, any_by, find_by, update_where, count_by}
use Prim.Native.Nat.{ℕ}
use mathlib.Core.Path.{◌≡◌, refl, sym, ap, subst}
use mathlib.Core.Logic.{◌≢◌, inl, inr}
use mathlib.Core.Bool.{Bool, true, false}
use mathlib.Core.Option.{some, some-injective}
use mathlib.Core.List.{List, [], ◌∷◌}

-- The conditional update of one row
abbrev pub changed {ℓ} : {A : Type ℓ} → (A → Bool) → (A → A) → A → A
changed p f x = if p x then f x else x

-- An update that keeps what is searched for changes the row that is found.
pub find_by-update_where :
    {A : Type 0} (q p : A → Bool) (f : A → A) (xs : List A) {x : A}
    → ((y : A) → q (f y) ≡ q y)
    → find_by q xs ≡ some x
    → find_by q (update_where p f xs) ≡ some (changed p f x)
find_by-update_where q p f [] keep e = cc
find_by-update_where q p f (y ∷ ys) {x} keep e = elim (Bool-cases (p y)) [
  | inl hit ↦ elim (Bool-cases (q y)) [
    | inl here ↦
        let same : y ≡ x = some-injective _ _ (rw here at e) in rw (hit, keep y, here, ← same, hit)
    | inr other ↦ rw (hit, keep y, other) (find_by-update_where q p f ys keep (rw other at e))
  ]
  | inr miss ↦ elim (Bool-cases (q y)) [
    | inl here ↦
        let same : y ≡ x = some-injective _ _ (rw here at e) in rw (miss, here, ← same, miss)
    | inr other ↦ rw (miss, other) (find_by-update_where q p f ys keep (rw other at e))
  ]
]

pub find_by-found :
    {A : Type 0} (q : A → Bool) (xs : List A) {x : A} → find_by q xs ≡ some x → q x ≡ true
find_by-found q [] e = cc
find_by-found q (y ∷ ys) {x} e = elim (Bool-cases (q y)) [
  | inl here ↦
      let same : y ≡ x = some-injective _ _ (rw here at e) in subst (λ z. q z ≡ true) same here
  | inr other ↦ find_by-found q ys (rw other at e)
]

pub find_by-any_by :
    {A : Type 0} (q : A → Bool) (xs : List A) {x : A} → find_by q xs ≡ some x → any_by q xs ≡ true
find_by-any_by q [] e = cc
find_by-any_by q (y ∷ ys) e = elim (Bool-cases (q y)) [
  | inl here ↦ rw here
  | inr other ↦ rw other (find_by-any_by q ys (rw other at e))
]

-- No two rows share a key.
abbrev pub IsKeyed : {A : Type 0} → (A → ℕ) → List A → Type 0
IsKeyed key [] = Unit
IsKeyed key (x ∷ xs) = All (λ y. key y ≢ key x) xs × IsKeyed key xs

module _ {A : Type 0} (key : A → ℕ) (k : ℕ) (p : A → Bool) (f : A → A)
    (selects : (x : A) → p x ≡ true → key x ≡ k) where
  passed_over : (x : A) → key x ≢ k → p x ≡ false
  passed_over x ne = elim (Bool-cases (p x)) [ inl e ↦ absurd (ne (selects x e)) | inr e ↦ e ]

  none_selected :
      (xs : List A) → All (λ y. key y ≢ k) xs → (count_by p xs ≡ 0) × (update_where p f xs ≡ xs)
  none_selected [] a = (refl, refl)
  none_selected (x ∷ xs) a =
      let (c, u) = none_selected xs a.1 in rw (passed_over x a.0) (rw c, ap (λ ys. x ∷ ys) u)

  -- The condition holds of the row with the key.
  pub one_selected :
      (xs : List A) {x : A}
      → IsKeyed key xs
      → find_by (λ y. key y == k) xs ≡ some x
      → p x ≡ true
      → count_by p xs ≡ 1
  one_selected [] d e t = cc
  one_selected (y ∷ ys) {x} d e t = elim (Bool-cases (key y == k)) [
    | inl same ↦
        let here : y ≡ x = some-injective _ _ (rw same at e) in
        let at_y : p y ≡ true = rw here t in
        let key_y : key y ≡ k = (==_iff (key y) k).0 same in
        let (c, _) = none_selected ys (subst (λ n. All (λ z. key z ≢ n) ys) key_y d.0) in
        rw (at_y, c)
    | inr other ↦
        let c = one_selected ys d.1 (rw other at e) t in
        rw (passed_over y (λ same. cc (other, (==_iff (key y) k).1 same)), c)
  ]

  -- The condition fails on the row with the key.
  pub nothing_selected :
      (xs : List A) {x : A}
      → IsKeyed key xs
      → find_by (λ y. key y == k) xs ≡ some x
      → p x ≡ false
      → (count_by p xs ≡ 0) × (update_where p f xs ≡ xs)
  nothing_selected [] d e t = cc
  nothing_selected (y ∷ ys) {x} d e t = elim (Bool-cases (key y == k)) [
    | inl same ↦
        let here : y ≡ x = some-injective _ _ (rw same at e) in
        let at_y : p y ≡ false = rw here t in
        let key_y : key y ≡ k = (==_iff (key y) k).0 same in
        let (c, u) = none_selected ys (subst (λ n. All (λ z. key z ≢ n) ys) key_y d.0) in
        rw at_y (rw c, ap (λ zs. y ∷ zs) u)
    | inr other ↦
        let (c, u) = nothing_selected ys d.1 (rw other at e) t in
        rw (passed_over y (λ same. cc (other, (==_iff (key y) k).1 same)))
          (rw c, ap (λ zs. y ∷ zs) u)
  ]

pub All-update_where {ℓ} :
    {A : Type 0} (P : A → Type ℓ) (p : A → Bool) (f : A → A) (xs : List A)
    → ((y : A) → P y → P (f y))
    → All P xs
    → All P (update_where p f xs)
All-update_where P p f [] keep a = tt
All-update_where P p f (x ∷ xs) keep a = elim (Bool-cases (p x)) [
  | inl e ↦ rw e (keep x a.0, All-update_where P p f xs keep a.1)
  | inr e ↦ rw e (a.0, All-update_where P p f xs keep a.1)
]

pub update_where-IsKeyed :
    {A : Type 0} (key : A → ℕ) (p : A → Bool) (f : A → A) (xs : List A)
    → ((y : A) → key (f y) ≡ key y)
    → IsKeyed key xs
    → IsKeyed key (update_where p f xs)
update_where-IsKeyed key p f [] same d = tt
update_where-IsKeyed key p f (x ∷ xs) same d =
    let rest = update_where-IsKeyed key p f xs same d.1 in
    let apart = All-update_where (λ y. key y ≢ key x) p f xs (λ y ne. rw (same y) ne) d.0 in
    elim (Bool-cases (p x)) [ inl e ↦ rw (e, same x) (apart, rest) | inr e ↦ rw e (apart, rest) ]

-- A new key.
pub any_by-fresh :
    {A : Type 0} (key : A → ℕ) (k : ℕ) (xs : List A)
    → any_by (λ y. key y == k) xs ≡ false
    → All (λ y. key y ≢ k) xs
any_by-fresh key k [] e = tt
any_by-fresh key k (x ∷ xs) e = elim (Bool-cases (key x == k)) [
  | inl same ↦ cc (let e' : true ≡ false = rw same at e in e')
  | inr other ↦
      (λ same. cc (other, (==_iff (key x) k).1 same), any_by-fresh key k xs (rw other at e))
]

-- What is found by one condition is found by its key, and meets any other that it satisfies.
pub find_by-satisfies :
    {A : Type 0} (q p : A → Bool) (xs : List A) {x : A}
    → find_by q xs ≡ some x
    → p x ≡ true
    → any_by p xs ≡ true
find_by-satisfies q p [] e t = cc
find_by-satisfies q p (y ∷ ys) {x} e t = elim (Bool-cases (p y)) [
  | inl hit ↦ rw hit
  | inr miss ↦ elim (Bool-cases (q y)) [
    | inl here ↦ let same : y ≡ x = some-injective _ _ (rw here at e) in cc (miss, t, ap p same)
    | inr other ↦ rw miss (find_by-satisfies q p ys (rw other at e) t)
  ]
]

pub All-find_by :
    {A : Type 0} (P : A → Type 0) (q : A → Bool) (xs : List A) {x : A}
    → All P xs
    → find_by q xs ≡ some x
    → P x
All-find_by P q [] a e = cc
All-find_by P q (y ∷ ys) a e = elim (Bool-cases (q y)) [
  | inl here ↦ subst P (some-injective _ _ (rw here at e)) a.0
  | inr other ↦ All-find_by P q ys a.1 (rw other at e)
]

pub find_by-key :
    {A : Type 0} (key : A → ℕ) (q : A → Bool) (xs : List A) {x : A}
    → IsKeyed key xs
    → find_by q xs ≡ some x
    → find_by (λ y. key y == key x) xs ≡ some x
find_by-key key q [] d e = cc
find_by-key key q (y ∷ ys) {x} d e = elim (Bool-cases (q y)) [
  | inl here ↦
      let same : y ≡ x = some-injective _ _ (rw here at e) in
      rw ((==_iff (key y) (key x)).1 (ap key same), same)
  | inr other ↦
      let rest = find_by-key key q ys d.1 (rw other at e) in
      elim (Bool-cases (key y == key x)) [
        | inl clash ↦ absurd (
            All-find_by (λ z. key z ≢ key y) q ys d.0 (rw other at e)
              (sym ((==_iff (key y) (key x)).0 clash)))
        | inr apart ↦ rw apart rest
      ]
]
