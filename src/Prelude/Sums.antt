-- ===== src/Prelude/Sums.antt =====
-- How much the coroutines below a bound hold together, each by a weight.
use Prim.Native.Nat.{ℕ, zero, suc, ◌+◌, ◌≤◌, ◌<◌}
use mathlib.Core.Path.{◌≡◌, refl}
use mathlib.Core.Logic.{inl, inr}
use native.Mathlib.Omega.{arith}
use zab.Prelude.Tests.{ltb, if◌then◌else◌, Bool-cases, ◌==◌, ==→≡, ==→≢}
use zab.Prelude.Sets.{update}

-- What the member `i` adds, if it lies below the bound.
abbrev share : ℕ → ℕ → ℕ → ℕ
share n i x = if ltb i n then x else 0

module _ {ℓ} {A : Type ℓ} (weight : A → ℕ) where
  pub total : ℕ → (ℕ → A) → ℕ
  total zero held = 0
  total (suc n) held = weight (held n) + total n held

  total-update-share :
      (held : ℕ → A) (i : ℕ) (new : A) (n : ℕ)
      → total n (update held i new) + share n i (weight (held i))
        ≡ share n i (weight new) + total n held
  unfolding total
  total-update-share held i new zero = ground arith
  total-update-share held i new (suc n) = ground (arith, total-update-share held i new n)

  pub total-update :
      (n : ℕ) (held : ℕ → A) (i : ℕ) (new : A)
      → i < n
      → total n (update held i new) + weight (held i) ≡ total n held + weight new
  total-update n held i new below = ground (arith, total-update-share held i new n)

  share-le-total : (held : ℕ → A) (i n : ℕ) → share n i (weight (held i)) ≤ total n held
  unfolding total
  share-le-total held i zero = ground arith
  share-le-total held i (suc n) = ground (arith, share-le-total held i n)

  pub le-total : (n : ℕ) (held : ℕ → A) (i : ℕ) → i < n → weight (held i) ≤ total n held
  le-total n held i below = ground (arith, share-le-total held i n)

  -- The total up to and with a new member.
  pub total-new :
      (n : ℕ) (held : ℕ → A) (new : A)
      → total (suc n) (update held n new) ≡ weight new + total n held
  unfolding total
  total-new n held new = ground (arith, total-update-share held n new n)

  pub total-zero : (n : ℕ) (held : ℕ → A) → ((i : ℕ) → weight (held i) ≡ 0) → total n held ≡ 0
  unfolding total
  total-zero zero held none_held = refl
  total-zero (suc n) held none_held = omega (arith, total-zero n held none_held, none_held n)

  pub total-le : (n : ℕ) (held : ℕ → A) → ((x : A) → weight x ≤ 1) → total n held ≤ n
  unfolding total
  total-le zero held one_each = omega arith
  total-le (suc n) held one_each = omega (arith, total-le n held one_each, one_each (held n))

  -- A total that is not zero has a member that adds to it.
  pub total-positive :
      (n : ℕ) (held : ℕ → A) → 1 ≤ total n held → (i : ℕ) × (i < n) × (1 ≤ weight (held i))
  unfolding total
  total-positive zero held h = absurd (omega arith)
  total-positive (suc n) held h = elim (Bool-cases (weight (held n) == 0)) [
    | inl z ↦
        let (i, below, one) = total-positive n held (omega (arith, ==→≡ (weight (held n)) 0 z)) in
        (i, omega arith, one)
    | inr z ↦ (n, omega arith, omega (arith, ==→≢ (weight (held n)) 0 z))
  ]
