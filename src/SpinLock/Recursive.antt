-- ===== src/SpinLock/Recursive.antt =====
-- includes/zab/spin_lock.hpp, recursive_spin_lock. Thread `i` has the id `i + 1`, since `get_id` counts
-- from 1. `depth` is how often a thread has locked and not unlocked; it is what the caller knows, and
-- the code does not read it except that only a holder calls `unlock`.
pub mod Safety
use zab.Prelude.{
  ℕ, suc, ◌+◌, ◌-◌, ◌%◌, ◌≡◌, ◌==◌, ltb, Bool, true, false, List, [], ◌∷◌, update, if◌then◌else◌,
  u64_mod, add64, sub64,
}
use zab.SpinLock.{Call, lock, try_lock, unlock}

pub data Pc : Type 0 where
  ready : (depth : ℕ) → Pc
  claiming : Pc  -- `lock`, before the compare-exchange
  spinning : Pc  -- `lock`, before the load of the inner loop
  trying : Pc  -- `try_lock`, before the compare-exchange

-- `thread_` and `count_`
pub record Word : Type 0 where
  pub thread : ℕ
  pub count : ℕ

abbrev claim : ℕ → Word → Pc → Word × Pc
claim id w lost =
    if w.thread == 0 then (record { thread = id; count = add64 w.count 1 }, ready 1) else (w, lost)

abbrev again : Word → ℕ → Word × Pc
again w depth = (record w { count = add64 w.count 1 }, ready (suc depth))

abbrev release : Word → ℕ → Word × Pc
release w depth =
    let count = sub64 w.count 1 in
    (record { thread = if count == 0 then 0 else w.thread; count = count }, ready (depth - 1))

-- One access of the thread `id` to `thread_`, with the work on `count_` that follows it.
unfoldable pub access : ℕ → Call → Word → Pc → Word × Pc
access id lock w (ready depth) = if w.thread == id then again w depth else (w, claiming)
access id try_lock w (ready depth) =
    if w.thread == 0
    then (w, trying)
    else if w.thread == id
    then again w depth
    else (w, ready depth)
access id unlock w (ready depth) = if depth == 0 then (w, ready depth) else release w depth
access id call w claiming = claim id w spinning
access id call w spinning = if w.thread == 0 then (w, claiming) else (w, spinning)
access id call w trying = claim id w (ready 0)

pub record System : Type 0 where
  pub word : Word
  pub pc : ℕ → Pc

abbrev pub init : System
init = record { word = record { thread = 0; count = 0 }; pc = λ _. ready 0 }

unfoldable pub turn : System → ℕ → Call → System
turn s i call =
    let (word, p) = access (suc i) call s.word (s.pc i) in
    record { word = word; pc = update s.pc i p }

unfoldable pub run : System → List (ℕ × Call) → System
run s [] = s
run s ((i, call) ∷ rest) = run (turn s i call) rest

abbrev pub depth_of : Pc → ℕ
depth_of (ready depth) = depth
depth_of _ = 0
