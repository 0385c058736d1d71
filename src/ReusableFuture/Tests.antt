-- ===== src/ReusableFuture/Tests.antt =====
-- A coroutine that counts down to 1 and then returns `std::nullopt`.
use zab.Prelude.{ℕ, zero, suc, ◌+◌, ◌≡◌, ◌==◌, Option, none, some, List, [], ◌∷◌, refl, length}
use zab.ReusableFuture.{
  Emission, yields, returns, Promise, ForCtl, break_, continue_, new, complete, for_each,
}
use zab.ReusableFuture.Loop.{Emits, last, more, consume, for_each_lem}

abbrev resume : ℕ → Emission ℕ ℕ
resume zero = returns none
resume (suc n) = yields (some (suc n)) n

-- The sum, up to the number 1.
abbrev add_up : ℕ → Option ℕ → ℕ × ForCtl
add_up sum none = (sum, continue_)
add_up sum (some zero) = (sum, continue_)
add_up sum (some (suc zero)) = (sum + 1, break_)
add_up sum (some (suc (suc n))) = (sum + suc (suc n), continue_)

abbrev emitted : List (Option ℕ)
emitted = some 3 ∷ some 2 ∷ some 1 ∷ none ∷ []

emits : Emits resume 3 emitted
emits = more refl (more refl (more refl (last refl)))

for_each_lem_example :
    (p : Promise ℕ ℕ) × (for_each resume add_up (suc (length emitted)) 0 0 (new 3)
      ≡ some ((consume resume add_up 0 emitted).0, p))
    × (complete p ≡ ((consume resume add_up 0 emitted).1 == length emitted))
for_each_lem_example = for_each_lem resume add_up 0 0 3 emitted emits
