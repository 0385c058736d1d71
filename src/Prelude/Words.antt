-- ===== src/Prelude/Words.antt =====
-- Machine words as native numbers, and signed 64-bit words as two's complement patterns.
use Prim.Native.Nat.{ℕ, ◌+◌, ◌-◌, ◌*◌, ◌%◌, ◌^◌}
use mathlib.Core.Bool.{Bool}
use zab.Prelude.Tests.{ltb, leb}

abbrev pub u64_mod : ℕ
u64_mod = 2 ^ 64

-- `std::uint64_t` and `std::ptrdiff_t` sums and differences, modulo 2^64.
abbrev pub add64 : ℕ → ℕ → ℕ
add64 a b = (a + b) % u64_mod

abbrev pub sub64 : ℕ → ℕ → ℕ
sub64 a b = (a + u64_mod - b) % u64_mod

abbrev pub mul64 : ℕ → ℕ → ℕ
mul64 a b = (a * b) % u64_mod

-- The order of the signed readings of two patterns.
abbrev pub signed_key : ℕ → ℕ
signed_key a = (a + 2 ^ 63) % u64_mod

abbrev pub slt64 : ℕ → ℕ → Bool
slt64 a b = ltb (signed_key a) (signed_key b)

abbrev pub sle64 : ℕ → ℕ → Bool
sle64 a b = leb (signed_key a) (signed_key b)

abbrev pub neg64 : ℕ → ℕ
neg64 a = (u64_mod - a) % u64_mod
