-- ===== src/Prelude/Action.antt =====
-- Service methods over a store: the store, and a result or an exception. What was written before an
-- exception stays written, since no service opens a database transaction.
use ardenne_padel_v.Prelude.Int.{ℤ}
use ardenne_padel_v.Prelude.Errors.{Error, plain_error, Result, ok, err, Number, integer, fraction}
use mathlib.Core.Option.{Option, none, some}
use mathlib.Core.Bool.{Bool}
use mathlib.Core.Path.{◌≡◌}
use ardenne_padel_v.Prelude.Tests.{if◌then◌else◌}

abbrev pub Action : Type 0 → Type 0 → Type 0
Action S A = S → Result A × S

-- What a lookup has found, or an exception.
abbrev pub found_or : {A : Type 0} → Error → Option A → Result A
found_or e none = err e
found_or e (some a) = ok a

module _ {S A : Type 0} where
  abbrev pub pure : A → Action S A
  pure a s = (ok a, s)

  abbrev pub raise : Error → Action S A
  raise e s = (err e, s)

  abbrev pub gets : (S → A) → Action S A
  gets f s = (ok (f s), s)

  -- An exception of the given kind if the value is missing.
  abbrev pub or_raise : Error → Option A → Action S A
  or_raise e found s = (found_or e found, s)

  abbrev pub from_result : Result A → Action S A
  from_result r s = (r, s)

  abbrev pub from_update : (S → A × S) → Action S A
  from_update f s = let (a, t) = f s in (ok a, t)

  -- `try { m } catch (e) { handle(e) }`
  abbrev pub attempt : Action S A → (Error → Action S A) → Action S A
  attempt m handle s = let (r, t) = m s in elim r [ ok a ↦ (ok a, t) | err e ↦ handle e t ]

infixl 5 ◌>>=◌ ◌>>◌
abbrev pub ◌>>=◌ : {S A B : Type 0} → Action S A → (A → Action S B) → Action S B
◌>>=◌ m f s = let (r, t) = m s in elim r [ ok a ↦ f a t | err e ↦ (err e, t) ]

abbrev pub ◌>>◌ : {S B : Type 0} → Action S (Unit {0}) → Action S B → Action S B
m >> k = m >>= λ _. k

abbrev pub modify : {S : Type 0} → (S → S) → Action S (Unit {0})
modify f s = (ok tt, f s)

abbrev pub raise_if : {S : Type 0} → Bool → Error → Action S (Unit {0})
raise_if c e s = (if c then err e else ok tt, s)

-- `if (c) { m }`
abbrev pub if_then : {S : Type 0} → Bool → Action S (Unit {0}) → Action S (Unit {0})
if_then c m s = if c then m s else (ok tt, s)

-- An action on a part of the store
abbrev pub zoom : {S T A : Type 0} → (S → T) → (T → S → S) → Action T A → Action S A
zoom part put m s = let (r, t) = m (part s) in (r, put t s)

-- `assertCents(n, …)`
abbrev pub checked_cents : {S : Type 0} → Number → Action S ℤ
checked_cents (integer n) s = (ok n, s)
checked_cents fraction s = (err plain_error, s)

-- The steps of a chain
module _ {S A B : Type 0} (m : Action S A) (f : A → Action S B) {s t : S} where
  pub bind_ok : {a : A} → m s ≡ (ok a, t) → (m >>= f) s ≡ f a t
  bind_ok e = rw (◌>>=◌, e, e)

  pub bind_err : {x : Error} → m s ≡ (err x, t) → (m >>= f) s ≡ (err x, t)
  bind_err e = rw (◌>>=◌, e, e)

pub attempt_err :
    {S A : Type 0} (m : Action S A) (handle : Error → Action S A) {s t : S} {x : Error}
    → m s ≡ (err x, t)
    → attempt m handle s ≡ handle x t
attempt_err m handle e = rw (attempt, e, e)

pub attempt_ok :
    {S A : Type 0} (m : Action S A) (handle : Error → Action S A) {s t : S} {a : A}
    → m s ≡ (ok a, t)
    → attempt m handle s ≡ (ok a, t)
attempt_ok m handle e = rw (attempt, e, e)
