-- ===== src/Prelude/Word.antt =====
-- Go's `int` and `int64` as 64-bit patterns: `n < 2^63` is n, and a larger one is n - 2^64.
use Prim.Native.Nat.{ℕ, ◌+◌, ◌-◌, ◌%◌, ◌^◌}
use mathlib.Core.Bool.{Bool}
use capyclaw.Prelude.Tests.{ltb}

abbrev pub Int64 : Type 0
Int64 = ℕ

-- a float64 that the code only copies is its bit pattern; 0 is the pattern of 0.0
abbrev pub Float64 : Type 0
Float64 = ℕ

abbrev pub add_int : Int64 → Int64 → Int64
add_int a b = (a + b) % 2 ^ 64

-- `a < b` on the signed values
abbrev pub int_lt : Int64 → Int64 → Bool
int_lt a b = ltb ((a + 2 ^ 63) % 2 ^ 64) ((b + 2 ^ 63) % 2 ^ 64)

-- `a - b`
abbrev pub sub_int : Int64 → Int64 → Int64
sub_int a b = (a + 2 ^ 64 - b % 2 ^ 64) % 2 ^ 64

-- The operations of IEEE-754 doubles that the code uses, taken as they come.
pub record FloatOps : Type 0 where
  pub of_int : Int64 → Float64
  pub mul : Float64 → Float64 → Float64
  pub lt : Float64 → Float64 → Bool
