-- ===== src/Barrier/Tests.antt =====
-- Concrete barriers.
use zab.Prelude.{ℕ, ◌≡◌, refl, [], ◌∷◌, some, true, arith}
use zab.Barrier.{Barrier, arrive_and_wait, arrive_and_drop, complete_phase, window_pass}
use zab.Barrier.Phase.{Completed, complete_phase-Completed, all_dropped_spins}

abbrev two_expected : Barrier
two_expected = record {
  expected = 2;
  working_set = 0;
  count = 2;
  links = λ a. 0;
  handles = λ a. 0;
  threads = λ a. 0;
  resumed = [];
  phases = 0;
}

-- Two participants, of which one drops, and an early arrival for the next phase.
abbrev early_arrival : Barrier
early_arrival =
    (arrive_and_wait (arrive_and_drop (arrive_and_wait two_expected 8 100 1).0 24).0 32 101 2).0

complete_phase-Completed_example :
    Completed early_arrival (32 ∷ []) (25 ∷ 8 ∷ []) (complete_phase 4 early_arrival)
unfolding arrive_and_wait arrive_and_drop
complete_phase-Completed_example =
    complete_phase-Completed early_arrival (32 ∷ []) 25 (8 ∷ []) 4 (omega arith) (omega arith)
      (omega arith) (omega arith) refl refl

abbrev both_drop : Barrier
both_drop = (arrive_and_drop (arrive_and_drop two_expected 8).0 24).0

all_dropped_spins_example :
    (after : Barrier) × (complete_phase 4 both_drop ≡ some (after, true))
    × (after.expected ≡ 0)
    × ((rounds : ℕ) → window_pass rounds after.expected after.links after.working_set ≡ some 0)
unfolding arrive_and_wait arrive_and_drop
all_dropped_spins_example =
    all_dropped_spins both_drop 25 (9 ∷ []) 4 (omega arith) (omega arith) (omega arith)
      (omega arith) refl refl refl
