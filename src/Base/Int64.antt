-- ===== src/Base/Int64.antt =====
-- Go's `int64`, as its bit pattern below 2 ^ 64.
use Prim.Native.Nat.{ℕ, ◌+◌, ◌%◌, ◌^◌, ◌<◌}
use mathlib.Core.Path.{◌≡◌}
use mathlib.Core.Bool.{Bool, true, false}
use native.Mathlib.Omega.{arith}
use claude_share.Base.Tests.{ltb, leb, if◌then◌else◌}

abbrev pub is_negative : ℕ → Bool
is_negative a = leb (2 ^ 63) a

-- a < b of two signed words
abbrev pub lt64 : ℕ → ℕ → Bool
lt64 a b =
    if is_negative a
    then (if is_negative b then ltb a b else true)
    else if is_negative b
    then false
    else ltb a b

-- a + b, with its wrap-around
abbrev pub add64 : ℕ → ℕ → ℕ
add64 a b = (a + b) % 2 ^ 64

-- Below 2 ^ 63 the signed order is the order of the numbers.
pub lt64_of_nonneg : (a b : ℕ) → a < 2 ^ 63 → b < 2 ^ 63 → lt64 a b ≡ ltb a b
lt64_of_nonneg a b ha hb = ground arith
