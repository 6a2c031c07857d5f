-- ===== src/Base/Int.antt =====
-- An `int` as its bit pattern below 2 ^ 32: the sign, and C's division, which rounds to zero.
use Prim.Native.Nat.{ℕ, ◌-◌, ◌/◌, ◌%◌, ◌^◌, ◌<◌}
use mathlib.Core.Bool.{Bool, ◌&&◌, ◌||◌}
use mathlib.Core.Option.{Option, none, some}
use mathlib.Core.Path.{◌≡◌}
use native.Mathlib.Omega.{arith}
use first_kernel.Base.Tests.{leb, ◌==◌, if◌then◌else◌}

abbrev pub is_negative : ℕ → Bool
is_negative a = leb (2 ^ 31) a

abbrev pub negate : ℕ → ℕ
negate a = (2 ^ 32 - a) % 2 ^ 32

abbrev pub magnitude : ℕ → ℕ
magnitude a = if is_negative a then 2 ^ 32 - a else a

-- `a / b`; to divide by zero, or the least `int` by -1, is the processor's divide error.
unfoldable pub divide : ℕ → ℕ → Option ℕ
divide a b =
    let quotient = magnitude a / magnitude b in
    if b == 0 || (a == 2 ^ 31 && b == 2 ^ 32 - 1)
    then none
    else some (
        if is_negative a
        then (if is_negative b then quotient else negate quotient)
        else (if is_negative b then negate quotient else quotient))

-- Of numbers that are not negative it is the quotient.
pub divide_lem : (a b : ℕ) → a < 2 ^ 31 → 0 < b → b < 2 ^ 31 → divide a b ≡ some (a / b)
unfolding divide
divide_lem a b h p k = ground arith
