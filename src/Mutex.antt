-- ===== src/Mutex.antt =====
-- includes/zab/async_mutex.hpp: the lock guard over the binary semaphore, and its moves. Locking and
-- `try_lock` are the moves of `Semaphore.Binary` (`begin`, `try_lock_wins`, `try_lock_loses`), and
-- `unlock` and the guard's destructor its `release`.
pub mod Laws
use zab.Prelude.{ℕ, zero, suc, ◌+◌, Bool, true, false, List, [], ◌∷◌, ◌++◌, if◌then◌else◌}

-- `async_lock_guard`: whether `sem_` is set.
pub record Guard : Type 0 where
  pub sem : Bool

-- `await_resume`
abbrev pub await_resume : Guard
await_resume = record { sem = true }

-- The move constructor: the new guard, and what is left of the old one.
unfoldable pub move : Guard → Guard × Guard
move g = (record { sem = g.sem }, record g { sem = false })

-- The destructor: how often it calls `release`.
unfoldable pub destroy : Guard → ℕ
destroy g = if g.sem then 1 else 0

-- The guards that are alive, after the one at `i` was moved into a new one.
unfoldable pub move_at : ℕ → List Guard → List Guard
move_at i [] = []
move_at zero (g ∷ rest) = let (new, old) = move g in old ∷ rest ++ (new ∷ [])
move_at (suc i) (g ∷ rest) = g ∷ move_at i rest

unfoldable pub move_all : List ℕ → List Guard → List Guard
move_all [] guards = guards
move_all (i ∷ more) guards = move_all more (move_at i guards)

-- All guards are destroyed.
unfoldable pub releases : List Guard → ℕ
releases [] = 0
releases (g ∷ rest) = destroy g + releases rest
