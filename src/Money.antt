-- ===== src/Money.antt =====
-- packages/shared/src/money.ts: amounts in whole cents.
pub mod Even
mod Tests
use ardenne_padel_v.Prelude.{
  if◌then◌else◌, ℤ, pos, negsuc, ltb_ℤ, ◌+ℤ◌, ◌-ℤ◌, negate, plain_error, Result, ok, err, Number,
  integer, fraction, ℕ, zero, suc, ◌+◌, ◌*◌, ◌/◌, Bool, true, false, List, [], ◌∷◌,
}

-- `isValidCents`
unfoldable pub is_valid_cents : Number → Bool
is_valid_cents (integer _) = true
is_valid_cents fraction = false

-- `assertCents`
unfoldable pub assert_cents : Number → Result ℤ
assert_cents (integer n) = ok n
assert_cents fraction = err plain_error

-- `addCents`, the `reduce` over its operands
add_from : ℤ → List Number → Result ℤ
add_from sum [] = ok sum
add_from sum (fraction ∷ values) = err plain_error
add_from sum (integer v ∷ values) = add_from (sum +ℤ v) values

unfoldable pub add_cents : List Number → Result ℤ
unfolding add_from
add_cents values = add_from (pos 0) values

unfoldable pub subtract_cents : Number → Number → Result ℤ
subtract_cents (integer a) (integer b) = ok (a -ℤ b)
subtract_cents fraction _ = err plain_error
subtract_cents (integer a) fraction = err plain_error

-- `Math.floor(a / k)` for a positive `k`
unfoldable pub floor_div : ℤ → ℕ → ℤ
floor_div (pos n) k = pos (n / k)
floor_div (negsuc n) k = negsuc (n / k)

-- `Math.floor(a / b)` for a `b` that is not 0
unfoldable pub floor_quot : ℤ → ℤ → ℤ
unfolding floor_div
floor_quot a (pos k) = floor_div a k
floor_quot a (negsuc k) = floor_div (negate a) (suc k)

-- `n * k` for a natural `k`
unfoldable pub times : ℤ → ℕ → ℤ
times (pos n) k = pos (n * k)
times (negsuc n) zero = pos 0
times (negsuc n) (suc k) = negsuc (n * suc k + k)

-- The elements of `Array.from` from index `i` on, `left` of them to go.
split_from : (base remainder : ℤ) (left i : ℕ) → List ℤ
split_from base remainder zero i = []
split_from base remainder (suc left) i =
    (if ltb_ℤ (pos i) remainder then base +ℤ pos 1 else base)
    ∷ split_from base remainder left (i + 1)

-- `splitEvenly`
unfoldable pub split_evenly : Number → Number → Result (List ℤ)
unfolding split_from floor_div times
split_evenly fraction _ = err plain_error
split_evenly (integer total) (integer (pos (suc p))) =
    let parts = suc p in
    let base = floor_div total parts in
    let remainder = total -ℤ times base parts in ok (split_from base remainder parts 0)
split_evenly (integer total) _ = err plain_error
