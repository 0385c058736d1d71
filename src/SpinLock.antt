-- ===== src/SpinLock.antt =====
-- includes/zab/spin_lock.hpp, spin_lock: threads that take turns on one atomic flag. A turn is one
-- access to `lock_`; a schedule is the list of turns, each with what its thread calls if it is free.
pub mod Safety
pub mod Recursive
mod Tests
use zab.Prelude.{ℕ, ◌≡◌, Bool, true, false, List, [], ◌∷◌, update, if◌then◌else◌}

pub data Call : Type 0 where
  lock try_lock unlock : Call

-- Where a thread stands.
pub data Pc : Type 0 where
  outside : Pc
  exchanging : Pc  -- `lock`, before the exchange
  spinning : Pc  -- `lock`, before the load of the inner loop
  trying : Pc  -- `try_lock`, before the exchange
  inside : Pc

-- One access of a thread to the flag. Only a thread inside unlocks.
unfoldable pub access : Call → Bool → Pc → Bool × Pc
access lock held outside = (held, exchanging)
access try_lock held outside = (held, if held then outside else trying)
access unlock held outside = (held, outside)
access call held exchanging = (true, if held then spinning else inside)
access call held spinning = (held, if held then spinning else exchanging)
access call held trying = (true, if held then outside else inside)
access unlock held inside = (false, outside)
access call held inside = (held, inside)

pub record System : Type 0 where
  pub held : Bool
  pub pc : ℕ → Pc

abbrev pub init : System
init = record { held = false; pc = λ _. outside }

unfoldable pub turn : System → ℕ → Call → System
turn s i call =
    let (held, p) = access call s.held (s.pc i) in record { held = held; pc = update s.pc i p }

unfoldable pub run : System → List (ℕ × Call) → System
run s [] = s
run s ((i, call) ∷ rest) = run (turn s i call) rest
