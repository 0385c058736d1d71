-- ===== src/Semaphore/Binary/Tests.antt =====
-- Runs of the binary semaphore: coroutine 2 acquires a free semaphore, 3 and 4 suspend behind it.
use zab.Prelude.{ℕ, ◌≡◌, refl, true, arith, none}
use zab.Memory.{reverse_loop}
use zab.Semaphore.Binary.{
  Sem, Pc, idle, waiting, owner, Effect, wakes, Move, begin, ready, not_ready, load, push,
  contended, swap, System, pick, init, Reach, here, later, owns,
}
use zab.Semaphore.Binary.Invariant.{arrivals, Kept}
use zab.Semaphore.Binary.Safety.{Held, Reach-Held, Step-Kept, mutual_exclusion, no_lost_waiter}

abbrev Run : Type 0
Run = (s : System) × Reach (init none) s

abbrev acquired : Run
unfolding init
acquired = (_, later (later here (pick 2 (omega arith) begin)) (pick 2 (omega arith) (ready refl)))

abbrev suspended : Run
unfolding init
suspended = (
  _,
  later
      (later
        (later (later acquired.1 (pick 3 (omega arith) begin))
          (pick 3 (omega arith) (not_ready (omega arith))))
        (pick 3 (omega arith) load))
      (pick 3 (omega arith) (push (omega arith) refl)),
)

-- Coroutine 4 suspends too, and 2 has found both.
abbrev releasing : Run
unfolding init
releasing = (
  _,
  later
      (later
        (later
          (later (later suspended.1 (pick 4 (omega arith) begin))
            (pick 4 (omega arith) (not_ready (omega arith))))
          (pick 4 (omega arith) load))
        (pick 4 (omega arith) (push (omega arith) refl)))
      (pick 2 (omega arith) (contended refl (omega arith))),
)

-- The exchange turns the stack 4, 3 round: 3 came first, and 4 is left to be handed over to.
abbrev resumed : Run
unfolding init reverse_loop
resumed = (_, later releasing.1 (pick 2 (omega arith) (swap 3 refl)))

resumed_state :
    (resumed.0.pc 3 ≡ owner)
    × (resumed.0.pc 4 ≡ waiting)
    × (resumed.0.pc 2 ≡ idle)
    × (resumed.0.sem.transfer ≡ 4)
unfolding init reverse_loop
resumed_state = (refl, refl, refl, refl)

mutual_exclusion_example : ◌≡◌ {A = ℕ} 3 3
unfolding init reverse_loop
mutual_exclusion_example = mutual_exclusion none resumed.1 3 3 refl refl

no_lost_waiter_example :
    ((c : ℕ) → releasing.0.pc c ≡ waiting → (o : ℕ) × (owns (releasing.0.pc o) ≡ true))
    × ((o : ℕ)
        → owns (releasing.0.pc o) ≡ true
        → (e : Effect) × (m : Sem) × (p : Pc) × Move o releasing.0.sem (releasing.0.pc o) e m p)
unfolding init
no_lost_waiter_example = no_lost_waiter none releasing.1

abbrev releasing_held : Held releasing.0
unfolding init
releasing_held = Reach-Held none releasing.1

Step-Kept_example :
    Kept resumed.0.sem resumed.0.pc (arrivals releasing_held.stack releasing_held.queue) (wakes 3)
unfolding init reverse_loop
Step-Kept_example = Step-Kept releasing_held.inv (pick 2 (omega arith) (swap 3 refl))
