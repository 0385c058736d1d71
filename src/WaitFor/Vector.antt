-- ===== src/WaitFor/Vector.antt =====
-- `wait_for` on a vector of futures of includes/zab/wait_for.hpp, over Latch. The futures start in their
-- order and complete in any, each at once inside its start or later on any thread.
pub mod Counting
use zab.Prelude.{
  ℕ, suc, ◌+◌, ◌<◌, ◌≡◌, ◌==◌, ltb, ◌&&◌, Bool, true, false, update, Option, none, some,
  if◌then◌else◌,
}
use zab.Latch.{Latch, create, count_down}

-- The `latch` and the results in their places, how many futures were started and which of them are
-- complete, and whether the coroutine has called `arrive_and_wait`.
pub record Waiting (V : Type 0) : Type 0 where
  pub latch : Latch
  pub result : ℕ → Option V
  pub started : ℕ
  pub complete : ℕ → Bool
  pub arrived : Bool

module _ {V : Type 0} where
  -- The latch is made for the futures and the coroutine that awaits them.
  abbrev pub init : ℕ → Waiting V
  init n = record {
    latch = create (n + 1);
    result = λ i. none;
    started = 0;
    complete = λ i. false;
    arrived = false;
  }

  -- `_result = co_await _future`, and `latch.count_down()`.
  unfoldable pub completed : Waiting V → ℕ → V → Waiting V
  completed w i v = record w {
    latch = count_down w.latch 1;
    result = update w.result i (some v);
    complete = update w.complete i true;
  }

  -- `latch.arrive_and_wait()`
  unfoldable pub arrive : Waiting V → Waiting V
  arrive w = record w { latch = count_down w.latch 1; arrived = true }

  -- Whether the awaiting coroutine goes on and returns the results.
  abbrev pub goes_on : Waiting V → Bool
  goes_on w = w.arrived && ltb 0 w.latch.unpaused

-- What `n` futures, which give `value`, and the coroutine that awaits them do.
pub data Step {V : Type 0} (n : ℕ) (value : ℕ → V) (w : Waiting V) : Waiting V → Type 0 where
  starts : w.started < n → Step n value w (record w { started = suc w.started })
  completes :
      (i : ℕ) → i < w.started → w.complete i ≡ false → Step n value w (completed w i (value i))
  arrives : w.started ≡ n → w.arrived ≡ false → Step n value w (arrive w)

pub data Reach {V : Type 0} (n : ℕ) (value : ℕ → V) : Waiting V → Type 0 where
  begun : Reach n value (init n)
  later :
      {before after : Waiting V}
      → Reach n value before
      → Step n value before after
      → Reach n value after
