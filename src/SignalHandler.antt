-- ===== src/SignalHandler.antt =====
-- includes/zab/signal_handler.hpp and src/signal_handler.cpp, with the functors in `F`. What signal(2)
-- returns is an argument; the pipe carries the bytes that the installed function writes to it, and a
-- read of it gives one of them or fails.
pub mod Filing
pub mod Delivery
mod Tests
use zab.Prelude.{
  ℕ, suc, ◌+◌, ◌-◌, ◌%◌, ◌^◌, ◌≡◌, ◌==◌, ◌&&◌, Bool, true, false, not, List, [], ◌∷◌, ◌++◌, update,
  ltb, length, if◌then◌else◌,
}

-- `handler_ == this`, `handlers_` and `running_`; `installs` is how often signal(2) was called.
pub record SignalHandler (F : Type 0) : Type 0 where
  pub active : Bool
  pub handlers : ℕ → List (ℕ × F)
  pub installs : ℕ → ℕ
  pub running : Bool

-- What `engine::execute` is given: the thread, the functor and its argument.
pub record Execution (F : Type 0) : Type 0 where
  pub thread : ℕ
  pub functor : F
  pub signal : ℕ

-- The end of a read of one byte, and whether `stop` was called while it was in flight.
pub data Read : Type 0 where
  got : (byte : ℕ) (stopped : Bool) → Read
  failed : Read

-- `char sig = _signal`, and `static_cast<int>(buffer)` as a 32-bit pattern; `char` is signed.
abbrev pub to_char : ℕ → ℕ
to_char signal = signal % 256

abbrev pub to_int : ℕ → ℕ
to_int byte = if ltb byte 128 then byte else byte + 2 ^ 32 - 256

module _ {F : Type 0} where
  -- The constructor: the first handler of the process is the active one.
  abbrev pub create : Bool → SignalHandler F
  create first = record {
    active = first;
    handlers = λ signal. [];
    installs = λ signal. 0;
    running = false;
  }

  -- `handle`, where signal(2) returns `previous`.
  unfoldable pub handle : SignalHandler F → ℕ → (previous : ℕ) → ℕ → F → SignalHandler F × Bool
  handle s signal previous thread functor =
      let filed = record s {
        handlers = update s.handlers signal (s.handlers signal ++ ((thread, functor) ∷ []));
      } in
      let installed = record filed {
        installs = update s.installs signal (suc (s.installs signal));
      } in
      if s.active
      then if length (filed.handlers signal) == 1 then (installed, previous == 0) else (filed, true)
      else (s, false)

  -- The loop over the handlers of a signal.
  abbrev pub execute_all : ℕ → List (ℕ × F) → List (Execution F)
  execute_all signal [] = []
  execute_all signal (h ∷ hs) =
      record { thread = h.0; functor = h.1; signal = signal } ∷ execute_all signal hs

  -- What `run` does with one read.
  abbrev pub process : SignalHandler F → Read → SignalHandler F × List (Execution F)
  process s (got byte stopped) = (
    record s { running = s.running && not stopped },
    execute_all (to_int byte) (s.handlers (to_int byte)),
  )
  process s failed = (record s { running = false }, [])

  -- The loop of `run` over the reads that end, with what it executes; it ends in the state it is in,
  -- either stopped or before a read.
  unfoldable pub loop : SignalHandler F → List Read → SignalHandler F × List (Execution F)
  loop s [] = (s, [])
  loop s (r ∷ rs) =
      let (s', now) = process s r in
      let (s'', rest) = loop s' rs in if s.running then (s'', now ++ rest) else (s, [])

  unfoldable pub run : SignalHandler F → List Read → SignalHandler F × List (Execution F)
  run s reads = if s.active then loop (record s { running = true }) reads else (s, [])
