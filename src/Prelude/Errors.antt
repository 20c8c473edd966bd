-- ===== src/Prelude/Errors.antt =====
-- The outcome of fallible code: packages/shared/src/errors.ts. A message and its details are text
-- for the reader of an answer, and are left out.
use Prim.Native.Nat.{ℕ}
use Prim.Native.String.{String}
use mathlib.Core.Path.{◌≡◌}
use ardenne_padel_v.Prelude.Int.{ℤ}

-- The codes that the modelled services throw.
pub data ErrorCode : Type 0 where
  validation_failed not_found forbidden insufficient_wallet_balance pilot_cohort_only : ErrorCode
  cancellation_deadline_passed booking_slot_unavailable guarantee_capture_failed : ErrorCode
  three_ds_required_unsupported_for_split share_already_paid invitation_expired : ErrorCode
  cash_session_already_open account_version_conflict : ErrorCode

-- `app_error code status` is an `AppError`; `plain_error` is any other exception.
pub data Error : Type 0 where
  app_error : ErrorCode → ℕ → Error
  plain_error : Error

pub data Result (A : Type 0) : Type 0 where
  ok : A → Result A
  err : Error → Result A

-- A JavaScript number as far as the code tests it: an integer, or a value that
-- `Number.isInteger` refuses (a fraction, NaN, an infinity).
pub data Number : Type 0 where
  integer : ℤ → Number
  fraction : Number

-- A text as far as the code tests it: one that `trim()` empties, or another one.
pub data Text : Type 0 where
  blank : Text
  filled : String → Text

pub ok-injective : {A : Type 0} {a b : A} → ok a ≡ ok b → a ≡ b
ok-injective h = cc

-- The answer, unless a last step has thrown
abbrev pub then_answer : {A : Type 0} → Result (Unit {0}) → A → Result A
then_answer (ok _) a = ok a
then_answer (err e) a = err e
