-- ===== src/SimpleFuture/Tests.antt =====
-- A coroutine that awaits two others, one of which awaits a third.
use zab.Prelude.{ℕ, ◌+◌, ◌*◌, ◌≤◌, ◌<◌, ◌≡◌, some, none, [], ◌∷◌, refl}
use zab.SimpleFuture.{Body, returns, awaits, Heap, run, start, steps, value}
use zab.SimpleFuture.Run.{ended, computes_value}

abbrev twice : ℕ → Body ℕ
twice n = awaits (returns n) (λ m. returns (m + m))

abbrev nested : Body ℕ
nested = awaits (twice 3) (λ a. awaits (returns 4) (λ b. returns (a * b)))

computes_value_example :
    (fin : Heap ℕ) × (run (steps nested) (start nested 9) ≡ some fin)
    × (fin.store 0 ≡ some (ended (value nested)))
    × (fin.executed ≡ 9 ∷ [])
    × (fin.current ≡ none)
    × ((a : ℕ) → 1 ≤ a → a < fin.next → fin.store a ≡ none)
computes_value_example = computes_value nested 9

value-nested : (value nested ≡ 24) × (steps nested ≡ 10)
unfolding value steps
value-nested = (refl, refl)
