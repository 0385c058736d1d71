-- ===== src/SpinLock/Tests.antt =====
-- Runs of spin_lock and recursive_spin_lock.
use zab.Prelude.{ℕ, suc, ◌<◌, ◌≡◌, refl, true, List, [], ◌∷◌, arith}
use zab.SpinLock.{Call, lock, unlock, spinning, inside, access, System, init, turn, run}
use zab.SpinLock.Safety.{exclusion}
use zab.SpinLock.Recursive
use zab.SpinLock.Recursive.Safety.{recursive_exclusion}

-- Thread 0 locks, thread 1 spins.
abbrev contended : List (ℕ × Call)
contended = (0, lock) ∷ (0, lock) ∷ (1, lock) ∷ (1, lock) ∷ (1, lock) ∷ []

contended_state :
    ((run init contended).held ≡ true)
    × ((run init contended).pc 0 ≡ inside)
    × ((run init contended).pc 1 ≡ spinning)
unfolding run turn access
contended_state = (refl, refl, refl)

exclusion_example :
    let s = run init contended in
    ((i j : ℕ) → s.pc i ≡ inside → s.pc j ≡ inside → i ≡ j)
    × (s.held ≡ true → (i : ℕ) × (s.pc i ≡ inside))
    × ((i : ℕ) → s.pc i ≡ inside → s.held ≡ true)
exclusion_example = exclusion contended

abbrev released : System
released = run init ((0, lock) ∷ (0, lock) ∷ (1, lock) ∷ (1, lock) ∷ (0, unlock) ∷ [])

-- Thread 0 locks twice and unlocks once; thread 1 spins.
abbrev nested : List (ℕ × Call)
nested = (0, lock) ∷ (0, lock) ∷ (0, lock) ∷ (1, lock) ∷ (1, lock) ∷ (0, unlock) ∷ []

nested_state :
    let s = Recursive.run Recursive.init nested in
    (s.word.thread ≡ 1) × (s.word.count ≡ 1) × (Recursive.depth_of (s.pc 0) ≡ 1)
unfolding Recursive.run Recursive.turn Recursive.access
nested_state = (refl, refl, refl)

recursive_exclusion_example :
    let s = Recursive.run Recursive.init nested in
    ((i : ℕ)
      → 0 < Recursive.depth_of (s.pc i)
      → (s.word.thread ≡ suc i) × (Recursive.depth_of (s.pc i) ≡ s.word.count))
    × ((i j : ℕ) → 0 < Recursive.depth_of (s.pc i) → 0 < Recursive.depth_of (s.pc j) → i ≡ j)
    × (s.word.thread ≡ 0 → (s.word.count ≡ 0) × ((i : ℕ) → Recursive.depth_of (s.pc i) ≡ 0))
recursive_exclusion_example = recursive_exclusion nested (omega arith)
