-- ===== src/EventLoop.antt =====
-- The user-space queue of an event loop: `dispatch_user_event`, `wake` and `run_user_space` of
-- src/event_loop.cpp, with the members of includes/zab/event_loop.hpp. Any thread may dispatch; the
-- two parts of a dispatch, under the lock and the write to the eventfd, are steps of their own.
pub mod Fifo
pub mod Wake
mod Tests
use zab.Prelude.{
  ℕ, suc, ◌+◌, ◌-◌, ◌<◌, ◌≡◌, ◌==◌, Bool, true, false, List, [], ◌∷◌, ◌++◌, length, if◌then◌else◌,
}

-- Where the coroutine of `run_user_space` is: before the swap, in the loop over the handles, suspended
-- on the read of the eventfd, or returned.
pub data Runner : Type 0 where
  swapping running reading returned : Runner

-- `handles_[kWriteIndex]`, `size_`, the part of `handles_[kReadIndex]` the loop has still to resume, the
-- counter of `user_space_event_fd_`, the calls of `wake` that a dispatch or a stop request has still to
-- make, and whether a stop was requested. `dispatched` and `resumed` record the events in the order of
-- these calls.
pub record Loop : Type 0 where
  pub write : List ℕ
  pub size : ℕ
  pub read : List ℕ
  pub eventfd : ℕ
  pub waking : ℕ
  pub stopping : Bool
  pub runner : Runner
  pub dispatched : List ℕ
  pub resumed : List ℕ

abbrev pub init : Loop
init = record {
  write = [];
  size = 0;
  read = [];
  eventfd = 0;
  waking = 0;
  stopping = false;
  runner = swapping;
  dispatched = [];
  resumed = [];
}

-- `dispatch_user_event` under the lock; `notify` is `size() == 1` after the insertion.
unfoldable pub dispatch_user_event : Loop → ℕ → Loop
dispatch_user_event l event =
    let write' = l.write ++ (event ∷ []) in
    record l {
      write = write';
      size = suc l.size;
      waking = if length write' == 1 then suc l.waking else l.waking;
      dispatched = l.dispatched ++ (event ∷ []);
    }

-- `wake`
unfoldable pub wake : Loop → Loop
wake l = record l { waking = l.waking - 1; eventfd = suc l.eventfd }

-- A stop is requested: from then on the token says so, and `get_stop_function`, which is called once,
-- has to call `wake`.
unfoldable pub interrupt : Loop → Loop
interrupt l = record l { waking = suc l.waking; stopping = true }

-- The swap under the lock. The read list is empty then: it was cleared, or never used.
unfoldable pub swap : Loop → Loop
swap l = record l { read = l.write; write = l.read; size = 0; runner = running }

-- One turn of the loop over the handles, or the `clear` and the read that follow it.
unfoldable pub next : Loop → Loop
next l = elim l.read [
  | [] ↦ record l { read = []; runner = reading }
  | event ∷ rest ↦ record l { read = rest; resumed = l.resumed ++ (event ∷ []) }
]

-- The read is complete with `result == sizeof(count)`, which empties the counter; the loop goes on
-- unless a stop was requested.
unfoldable pub read_done : Loop → Loop
read_done l = record l { eventfd = 0; runner = if l.stopping then returned else swapping }

-- The read failed: the coroutine returns.
unfoldable pub read_failed : Loop → Loop
read_failed l = record l { runner = returned }

-- One step of a thread that dispatches or requests a stop, or of the coroutine. An eventfd is readable
-- while its counter is not 0.
pub data Step : Loop → Loop → Type 0 where
  dispatch : {l : Loop} (event : ℕ) → Step l (dispatch_user_event l event)
  notify : {l : Loop} → 0 < l.waking → Step l (wake l)
  request_stop : {l : Loop} → l.stopping ≡ false → Step l (interrupt l)
  take_over : {l : Loop} → l.runner ≡ swapping → Step l (swap l)
  proceed : {l : Loop} → l.runner ≡ running → Step l (next l)
  complete : {l : Loop} → l.runner ≡ reading → 0 < l.eventfd → Step l (read_done l)
  fail : {l : Loop} → l.runner ≡ reading → Step l (read_failed l)

pub data Steps : Loop → Loop → Type 0 where
  stay : {l : Loop} → Steps l l
  go : {l m n : Loop} → Steps l m → Step m n → Steps l n
