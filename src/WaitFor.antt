-- ===== src/WaitFor.antt =====
-- includes/zab/wait_for.hpp: `wait_for` on futures given one by one, which start in their order and
-- complete in any, each at once inside its start or later on any thread.
pub mod Counting
pub mod Vector
mod Tests
use zab.Prelude.{
  ℕ, suc, ◌+◌, ◌<◌, ◌≡◌, ◌==◌, Bool, true, false, update, if◌then◌else◌, sub64, add64,
}

-- `counter_` of the data pack, how many futures were started, which of them are complete, whether the
-- suspension itself has counted, and how often the awaiting coroutine was resumed.
pub record Pack : Type 0 where
  pub counter : ℕ
  pub started : ℕ
  pub complete : ℕ → Bool
  pub suspended : Bool
  pub resumed : ℕ

-- The constructor: `sizeof...(Promises) + 1`.
abbrev pub init : ℕ → Pack
init n = record {
  counter = add64 n 1;
  started = 0;
  complete = λ i. false;
  suspended = false;
  resumed = 0;
}

-- `counter_.fetch_sub(1) == 1`, and then the execution of the awaiting event.
abbrev pub count_down : Pack → Pack
count_down p = record p {
  counter = sub64 p.counter 1;
  resumed = if p.counter == 1 then suc p.resumed else p.resumed;
}

-- The callback of the future number `i`, and the end of the suspension.
unfoldable pub completed : Pack → ℕ → Pack
completed p i = record (count_down p) { complete = update p.complete i true }

unfoldable pub suspend : Pack → Pack
suspend p = record (count_down p) { suspended = true }

-- A future is started with the callback, calls it once, and the suspension counts when all are started.
pub data Step (n : ℕ) (p : Pack) : Pack → Type 0 where
  inline_start : p.started < n → Step n p (record p { started = suc p.started })
  call : (i : ℕ) → i < p.started → p.complete i ≡ false → Step n p (completed p i)
  finish : p.started ≡ n → p.suspended ≡ false → Step n p (suspend p)

pub data Reach (n : ℕ) : Pack → Type 0 where
  begun : Reach n (init n)
  later : {before after : Pack} → Reach n before → Step n before after → Reach n after
