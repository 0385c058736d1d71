-- ===== src/WaitFor/Tests.antt =====
-- Runs of `wait_for`.
use zab.Prelude.{ℕ, ◌+◌, ◌≡◌, refl, arith, if◌then◌else◌, ◌==◌, ◌&&◌, one_if, some, none}
use zab.WaitFor.Vector
use zab.WaitFor.Vector.Counting
use zab.WaitFor.{Pack, init, completed, suspend, inline_start, call, finish, Reach, begun, later}
use zab.WaitFor.Counting.{amount, resumes_once}

-- Of two futures the first completes inside its start, the second after the suspension.
abbrev both_started : Pack
both_started = record (completed (record (init 2) { started = 1 }) 0) { started = 2 }

abbrev ended : Pack
ended = completed (suspend both_started) 1

ended-Reach : Reach 2 ended
unfolding completed suspend
ended-Reach =
    later
      (later
        (later (later (later begun (inline_start (omega arith))) (call 0 (omega arith) refl))
          (inline_start (omega arith)))
        (finish refl refl))
      (call 1 (omega arith) refl)

resumes_once_example : ended.resumed ≡ (if amount 2 ended == 2 && ended.suspended then 1 else 0)
resumes_once_example = resumes_once 2 (omega arith) ended ended-Reach

-- A vector of two futures, which give 7 and 8; the second completes first.
abbrev value : ℕ → ℕ
value i = i + 7

abbrev waited : Vector.Waiting ℕ
waited =
    Vector.arrive
      (Vector.completed (Vector.completed (record (Vector.init 2) { started = 2 }) 1 8) 0 7)

waited-Reach : Vector.Reach 2 value waited
unfolding Vector.completed Vector.arrive
waited-Reach =
    Vector.later
      (Vector.later
        (Vector.later
          (Vector.later (Vector.later Vector.begun (Vector.starts (omega arith)))
            (Vector.starts (omega arith)))
          (Vector.completes 1 (omega arith) refl))
        (Vector.completes 0 (omega arith) refl))
      (Vector.arrives refl refl)

waits_for_all_example :
    (Vector.goes_on waited ≡ (Counting.amount 2 value waited == 2 && waited.arrived))
    × (waited.latch.unpaused ≡ one_if (Vector.goes_on waited))
    × (waited.result 1 ≡ (if waited.complete 1 then some (value 1) else none))
waits_for_all_example = Counting.waits_for_all 2 value (omega arith) waited 1 waited-Reach
