-- ===== src/Prelude/JsNumber.antt =====
-- A JavaScript number, as far as the validation of options looks at it.
use Prim.Native.Nat.{ℕ, ◌-◌, ◌^◌, ◌≤◌}
use mathlib.Core.Path.{◌≡◌}
use mathlib.Core.Bool.{◌&&◌}
use mathlib.Core.Option.{Option, none, some}
use native.Mathlib.Omega.{arith}
use zsj_crm.Prelude.Tests.{leb, if◌then◌else◌}

-- `nat n` is the integer n, `neg n` is -(n + 1), `other` is a fraction, an infinity or NaN.
pub data Number : Type 0 where
  nat : ℕ → Number
  neg : ℕ → Number
  other : Number

abbrev pub max_safe_integer : ℕ
max_safe_integer = 2 ^ 53 - 1

-- `Number.isSafeInteger(x) && x >= lo && x <= hi`, and the value when it holds.
abbrev pub safe_between : ℕ → ℕ → Number → Option ℕ
safe_between lo hi (nat n) =
    if leb n max_safe_integer && (leb lo n && leb n hi) then some n else none
safe_between lo hi (neg n) = none
safe_between lo hi other = none

abbrev pub safe_from : ℕ → Number → Option ℕ
safe_from lo x = safe_between lo max_safe_integer x

pub safe_between_bounds :
    (lo hi : ℕ) (x : Number) (n : ℕ) → safe_between lo hi x ≡ some n → (lo ≤ n) × (n ≤ hi)
safe_between_bounds lo hi (nat m) n h = ground arith
safe_between_bounds lo hi (neg m) n h = ground arith
safe_between_bounds lo hi other n h = ground arith
