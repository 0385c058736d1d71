-- ===== src/Timer/Order.antt =====
-- `order_t` of includes/zab/strong_types.hpp, a number of nanoseconds in 64 bits, and what the timer is
-- set to for it.
use zab.Prelude.{ℕ, ◌+◌, ◌*◌, ◌/◌, ◌%◌, ◌^◌, ◌≤◌, ◌<◌, ◌≡◌, ap₂, arith, add64, sub64, mul64}
use zab.Timer.{to_spec}

-- `order::seconds` and `order::in_seconds`
abbrev pub seconds : ℕ → ℕ
seconds number = mul64 number 1000000000

-- `order::milli` and `order::in_milli`
abbrev pub milli : ℕ → ℕ
milli number = mul64 number 1000000

-- `order::now`
abbrev pub now : ℕ
now = 0

-- `operator+` and `operator-`
abbrev pub plus : ℕ → ℕ → ℕ
plus lhs rhs = add64 lhs rhs

abbrev pub minus : ℕ → ℕ → ℕ
minus lhs rhs = sub64 lhs rhs

-- Up to 18446744073 seconds the timer is set to just that many.
pub to_spec-seconds : (n : ℕ) → n ≤ 18446744073 → to_spec (seconds n) ≡ record { sec = n; nsec = 0 }
to_spec-seconds n h = ap₂ (λ s t. record { sec = s; nsec = t }) (omega arith) (omega arith)

-- Up to 18446744073709 milliseconds it is set to their whole seconds and the rest.
pub to_spec-milli :
    (n : ℕ)
    → n ≤ 18446744073709
    → to_spec (milli n) ≡ record { sec = n / 1000; nsec = n % 1000 * 1000000 }
to_spec-milli n h = ap₂ (λ s t. record { sec = s; nsec = t }) (omega arith) (omega arith)

-- A sum that does not wrap is undone by the difference.
pub minus-plus : (a b : ℕ) → a + b < 2 ^ 64 → minus (plus a b) b ≡ a
minus-plus a b h = omega arith
