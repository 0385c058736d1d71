-- ===== src/Semaphore/Binary.antt =====
-- includes/zab/async_semaphore.hpp, async_counting_semaphore<1>, and includes/zab/async_mutex.hpp,
-- which is that semaphore behind a lock guard. Coroutines are named by the addresses of their
-- waiters. A move is one access to the atomic word `resuming_` with the local work that follows it,
-- so any interleaving of the coroutines is a sequence of moves.
pub mod Invariant
pub mod Moves
pub mod Safety
mod Tests
use zab.Prelude.{ℕ, ◌≤◌, ◌≡◌, ◌≢◌, ◌==◌, ◌||◌, Bool, true, false, Option, none, some, update}
use zab.Memory.{Links, reverse_loop}

-- `kLockFlag`
abbrev pub lock_flag : ℕ
lock_flag = 1

-- `resuming_`, `transfer_` and the `next_waiting_` of every waiter. The word is 0 (free), the flag
-- (held), or the address of the last waiter that was pushed.
pub record Sem : Type 0 where
  pub word : ℕ
  pub transfer : ℕ
  pub links : Links

-- Where a coroutine stands.
pub data Pc : Type 0 where
  idle : Pc  -- outside
  trying : Pc  -- `await_ready`, before the compare-exchange of `try_aquire`
  loading : Pc  -- `suspend`, before the load
  looping : (previous : ℕ) → Pc  -- `suspend`, before a compare-exchange
  waiting : Pc  -- suspended
  owner : Pc  -- acquired, or resumed by a release
  swapping : Pc  -- `release`, before the exchange

-- What a move does to the coroutines that wait.
pub data Effect : Type 0 where
  quiet : Effect
  joins : ℕ → Effect
  wakes : ℕ → Effect

-- The negated test of the reversal loop, `next && next != kLockFlag`.
abbrev pub ends : ℕ → Bool
ends p = p == 0 || p == lock_flag

-- One move of the coroutine `c`. A weak compare-exchange may fail without cause.
pub data Move (c : ℕ) (m : Sem) : Pc → Effect → Sem → Pc → Type 0 where
  begin : Move c m idle quiet m trying
  try_lock_wins : m.word ≡ 0 → Move c m idle quiet (record m { word = lock_flag }) owner
  try_lock_loses : m.word ≢ 0 → Move c m idle quiet m idle
  ready : m.word ≡ 0 → Move c m trying quiet (record m { word = lock_flag }) owner
  not_ready : m.word ≢ 0 → Move c m trying quiet m loading
  load : Move c m loading quiet m (looping m.word)
  take :
      {previous : ℕ}
      → previous ≡ 0
      → m.word ≡ previous
      → Move c m (looping previous) quiet (record m { word = lock_flag }) owner
  retry_take : {previous : ℕ} → previous ≡ 0 → Move c m (looping previous) quiet m (looping m.word)
  push :
      {previous : ℕ}
      → previous ≢ 0
      → m.word ≡ previous
      → Move c m
          (looping previous)
          (joins c)
          (record m { word = c; links = update m.links c previous })
          waiting
  retry_push :
      {previous : ℕ}
      → previous ≢ 0
      → Move c m
          (looping previous)
          quiet
          (record m { links = update m.links c previous })
          (looping m.word)
  hand_over :
      m.transfer ≢ 0
      → Move c m owner (wakes m.transfer) (record m { transfer = m.links m.transfer }) idle
  unlock : m.transfer ≡ 0 → m.word ≡ lock_flag → Move c m owner quiet (record m { word = 0 }) idle
  contended : m.transfer ≡ 0 → m.word ≢ lock_flag → Move c m owner quiet m swapping
  swap :
      (fuel : ℕ) {head : ℕ} {links : Links}
      → reverse_loop ends fuel m.links m.word 0 ≡ some (head, links)
      → Move c m swapping
          (wakes head)
          (record { word = lock_flag; transfer = links head; links = links })
          idle

pub record System : Type 0 where
  pub sem : Sem
  pub pc : ℕ → Pc

-- `thread_resume` lets the woken coroutine run on behind its `co_await`.
abbrev pub wake : Effect → (ℕ → Pc) → ℕ → Pc
wake (wakes h) pc = update pc h owner
wake _ pc = pc

-- Any coroutine may move next; addresses of waiters are neither null nor the flag.
pub data Step (s : System) : Effect → System → Type 0 where
  pick :
      (c : ℕ) {e : Effect} {m : Sem} {p : Pc}
      → 2 ≤ c
      → Move c s.sem (s.pc c) e m p
      → Step s e (record { sem = m; pc = wake e (update s.pc c p) })

-- The constructor: free, or locked with `c` the coroutine that will release.
pub init : Option ℕ → System
init none = record { sem = record { word = 0; transfer = 0; links = λ _. 0 }; pc = λ _. idle }
init (some c) = record {
  sem = record { word = lock_flag; transfer = 0; links = λ _. 0 };
  pc = update (λ _. idle) c owner;
}

pub data Reach (start : System) : System → Type 0 where
  here : Reach start start
  later : {s t : System} {e : Effect} → Reach start s → Step s e t → Reach start t

-- Between the acquisition and the end of the release.
abbrev pub owns : Pc → Bool
owns owner = true
owns swapping = true
owns _ = false

abbrev pub waits : Pc → ℕ
waits waiting = 1
waits _ = 0
