-- ===== src/Semaphore/Counting/Tests.antt =====
-- Runs of the counting semaphore, from no permits.
use zab.Prelude.{ℕ, ◌+◌, ◌≤◌, ◌<◌, ◌≡◌, refl, arith, List, ◌++◌, total}
use zab.Memory.{reverse_loop}
use zab.Semaphore.Counting.{
  pos, System, set_pc, counting, looping, count_down, link, push, release, add_active, resume,
  finish, found, spinning, off, resuming, load, counts_down, reads_word, pushes, releases, look,
  add_found, add_missed, resumes, subtracts, pick, turn, init, Reach, begun, later, transfer,
  missed, subtracting, Turn,
}
use zab.Semaphore.Counting.Balance.{above, below, awaiting}
use zab.Semaphore.Counting.Moves.{resumed_by_arrival}
use zab.Semaphore.Counting.Permits.{granted_within, permits_kept}
use zab.Semaphore.Counting.Progress.{control_goes_on}

-- The coroutine 2 counts itself down and suspends.
abbrev counted : System
counted = count_down (set_pc (init 0) 2 (counting (pos 0))) 2

abbrev suspended : System
suspended = push (set_pc counted 2 (looping 0)) 2 0

counted-Reach : Reach 4 0 counted
counted-Reach =
    later (later begun (pick 2 (omega arith) (omega arith) (load refl)))
      (pick 2 (omega arith) (omega arith) (counts_down refl refl))

suspended-Reach : Reach 4 0 suspended
suspended-Reach =
    later (later counted-Reach (pick 2 (omega arith) (omega arith) (reads_word refl)))
      (pick 2 (omega arith) (omega arith) (pushes refl refl))

-- The coroutine 3 releases a permit, and `control` resumes the first.
abbrev taken : System
taken = record (release suspended 1) {
  sem = record (release suspended 1).sem {
    word = 0;
    transfer = 0;
    links = (link suspended 2 0).sem.links;
  };
  control = found 2;
}

abbrev served : System
served = finish (resume (add_active taken (resuming 2)) 2)

served-Reach : Reach 4 0 served
unfolding transfer reverse_loop
served-Reach =
    later
      (later
        (later
          (later
            (later suspended-Reach
              (pick 3 (omega arith) (omega arith) (releases 1 refl (omega arith))))
            (turn (look 1 refl refl)))
          (turn (add_found refl)))
        (turn (resumes refl)))
      (turn (subtracts refl))

resumed_by_arrival_example : (rest : List ℕ) × (served.pushed ≡ served.woken ++ rest)
resumed_by_arrival_example = resumed_by_arrival 4 0 served-Reach

granted_within_example : served.granted ≤ 0 + served.released
granted_within_example = granted_within 4 0 served-Reach

permits_kept_example :
    served.granted + (above served.sem.active + total awaiting 4 served.pc)
    ≡ 0 + (served.released + below served.sem.active)
permits_kept_example = permits_kept 4 0 served-Reach refl

-- A release while the first coroutine is not yet on the list makes `control` spin.
abbrev spun : System
spun = add_active (record (release counted 1) { control = missed }) spinning

spun-Reach : Reach 4 0 spun
unfolding transfer
spun-Reach =
    later
      (later
        (later counted-Reach (pick 3 (omega arith) (omega arith) (releases 1 refl (omega arith))))
        (turn (look 0 refl refl)))
      (turn (add_missed refl))

control_goes_on_example :
    ((t : System) × Turn spun t)
    × (spun.control ≡ spinning → (c : ℕ) × (c < 4) × (1 ≤ awaiting (spun.pc c)))
control_goes_on_example = control_goes_on 4 0 spun-Reach refl

-- The coroutine 2 loads a count of zero, a permit is released, and it suspends beside the permit.
abbrev stranded : System
stranded =
    push
      (set_pc
        (count_down
          (finish (
            add_active
              (record (release (set_pc (init 0) 2 (counting (pos 0))) 1) { control = missed })
              subtracting))
          2)
        2 (looping 0))
      2 0

stranded-Reach : Reach 4 0 stranded
unfolding transfer
stranded-Reach =
    later
      (later
        (later
          (later
            (later
              (later
                (later (later begun (pick 2 (omega arith) (omega arith) (load refl)))
                  (pick 3 (omega arith) (omega arith) (releases 1 refl (omega arith))))
                (turn (look 0 refl refl)))
              (turn (add_missed refl)))
            (turn (subtracts refl)))
          (pick 2 (omega arith) (omega arith) (counts_down refl refl)))
        (pick 2 (omega arith) (omega arith) (reads_word refl)))
      (pick 2 (omega arith) (omega arith) (pushes refl refl))

stranded-at_rest : (stranded.control ≡ off) × (stranded.granted ≡ 0) × (stranded.released ≡ 1)
stranded-at_rest = (refl, refl, refl)
