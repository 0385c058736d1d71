-- ===== src/Semaphore/Counting.antt =====
-- includes/zab/async_semaphore.hpp, async_counting_semaphore<Count>: a move is one access to one of
-- its atomic words with the local work that follows it. The coroutines are named by the addresses of
-- their waiters, at least 2; `control` runs at most once at a time and is an actor of its own. The
-- counts do not overflow.
pub mod Transfer
pub mod Linked
pub mod Moves
pub mod Balance
pub mod Permits
pub mod Progress
mod Tests
use zab.Prelude.{
  ℕ, zero, suc, ◌+◌, ◌-◌, ◌≤◌, ◌<◌, ◌≡◌, ◌==◌, Bool, true, false, Option, none, some, List, [], ◌∷◌,
  ◌++◌, update, if◌then◌else◌,
}
use zab.Memory.{Links, reverse_loop}

-- `std::ptrdiff_t`, without bounds.
pub data ℤ : Type 0 where
  pos : ℕ → ℤ
  negsuc : ℕ → ℤ

abbrev pub plus_one : ℤ → ℤ
plus_one (pos n) = pos (suc n)
plus_one (negsuc zero) = pos 0
plus_one (negsuc (suc n)) = negsuc n

abbrev pub minus_one : ℤ → ℤ
minus_one (pos zero) = negsuc 0
minus_one (pos (suc n)) = pos n
minus_one (negsuc n) = negsuc (suc n)

-- `> 0` and `< 0`
abbrev pub positive : ℤ → Bool
positive (pos zero) = false
positive (pos (suc n)) = true
positive (negsuc n) = false

abbrev pub negative : ℤ → Bool
negative (pos n) = false
negative (negsuc n) = true

-- `resuming_`, `transfer_` and the `next_waiting_` of every waiter; `active_count_` and
-- `release_count_`.
pub record Sem : Type 0 where
  pub word : ℕ
  pub transfer : ℕ
  pub links : Links
  pub active : ℤ
  pub release_count : ℕ

-- Where a coroutine stands.
pub data Pc : Type 0 where
  idle : Pc  -- outside
  trying : (result : ℤ) → Pc  -- `try_aquire`, after a load
  counting : (result : ℤ) → Pc  -- `await_suspend`, after a load
  linking : Pc  -- `suspend`, before the load
  looping : (previous : ℕ) → Pc  -- `suspend`, before a compare-exchange
  waiting : Pc  -- suspended

-- Where `control` stands.
pub data Control : Type 0 where
  off : Control  -- not running
  transferring : Control  -- before `transfer`
  found : (resume : ℕ) → Control  -- `transfer` returned a waiter
  missed : Control  -- `transfer` returned null
  spinning : Control  -- before `transfer` in the inner loop
  resuming : (resume : ℕ) → Control  -- before `thread_resume`
  subtracting : Control  -- before the decrement of `release_count_`

-- The negated test of the reversal loop, `next`.
abbrev pub ends : ℕ → Bool
ends p = p == 0

-- The end of `transfer`, with what the loop left.
abbrev pub set_transfer : Sem → Option (ℕ × Links) → Option (ℕ × Sem)
set_transfer m (some (head, links)) =
    some (head, record m { word = 0; transfer = links head; links = links })
set_transfer m none = none

-- `transfer()`, the returned address with the memory; `none` is a fault, or fuel that ran out.
unfoldable pub transfer : ℕ → Sem → Option (ℕ × Sem)
transfer fuel m =
    let turned = set_transfer m (reverse_loop ends fuel m.links m.word 0) in
    if m.transfer == 0
    then if m.word == 0 then some (0, m) else turned
    else some (m.transfer, record m { transfer = m.links m.transfer })

-- With what it knows of the semaphore's user: the permits granted, those released, and the waiters
-- that were pushed and those that were resumed, each in order.
pub record System : Type 0 where
  pub sem : Sem
  pub pc : ℕ → Pc
  pub control : Control
  pub granted : ℕ
  pub released : ℕ
  pub pushed : List ℕ
  pub woken : List ℕ

abbrev pub set_pc : System → ℕ → Pc → System
set_pc s c p = record s { pc = update s.pc c p }

-- A compare-exchange of the count to one less.
abbrev pub acquire : System → ℕ → System
acquire s c = record s {
  sem = record s.sem { active = minus_one s.sem.active };
  pc = update s.pc c idle;
  granted = suc s.granted;
}

-- The `fetch_sub` of `await_suspend`, whose result is not looked at.
abbrev pub count_down : System → ℕ → System
count_down s c = record s {
  sem = record s.sem { active = minus_one s.sem.active };
  pc = update s.pc c linking;
}

abbrev pub link : System → ℕ → ℕ → System
link s c previous = record s { sem = record s.sem { links = update s.sem.links c previous } }

-- The compare-exchange of `suspend`.
abbrev pub push : System → ℕ → ℕ → System
push s c previous = record s {
  sem = record s.sem { word = c; links = update s.sem.links c previous };
  pc = update s.pc c waiting;
  pushed = s.pushed ++ (c ∷ []);
}

-- `release(update)`: the first one starts `control`.
abbrev pub release : System → ℕ → System
release s amount = record s {
  sem = record s.sem { release_count = s.sem.release_count + amount };
  control = if s.sem.release_count == 0 then transferring else s.control;
  released = s.released + amount;
}

abbrev pub add_active : System → Control → System
add_active s p = record s { sem = record s.sem { active = plus_one s.sem.active }; control = p }

-- `thread_resume` lets the waiter run on behind its `co_await`.
abbrev pub resume : System → ℕ → System
resume s h = record s {
  pc = update s.pc h idle;
  control = subtracting;
  granted = suc s.granted;
  woken = s.woken ++ (h ∷ []);
}

-- The decrement of `release_count_`; `waiting == 1` ends `control`.
abbrev pub finish : System → System
finish s = record s {
  sem = record s.sem { release_count = s.sem.release_count - 1 };
  control = if s.sem.release_count == 1 then off else transferring;
}

-- A move of the coroutine `c`. A weak compare-exchange may fail without cause; a caller releases at
-- least one permit.
pub data Move (c : ℕ) (s : System) : System → Type 0 where
  try_load : s.pc c ≡ idle → Move c s (set_pc s c (trying s.sem.active))
  try_wins :
      {result : ℤ}
      → s.pc c ≡ trying result
      → positive result ≡ true
      → s.sem.active ≡ result
      → Move c s (acquire s c)
  try_again :
      {result : ℤ}
      → s.pc c ≡ trying result
      → positive result ≡ true
      → Move c s (set_pc s c (trying s.sem.active))
  try_fails :
      {result : ℤ} → s.pc c ≡ trying result → positive result ≡ false → Move c s (set_pc s c idle)
  load : s.pc c ≡ idle → Move c s (set_pc s c (counting s.sem.active))
  wins :
      {result : ℤ}
      → s.pc c ≡ counting result
      → positive result ≡ true
      → s.sem.active ≡ result
      → Move c s (acquire s c)
  again :
      {result : ℤ}
      → s.pc c ≡ counting result
      → positive result ≡ true
      → Move c s (set_pc s c (counting s.sem.active))
  counts_down :
      {result : ℤ} → s.pc c ≡ counting result → positive result ≡ false → Move c s (count_down s c)
  reads_word : s.pc c ≡ linking → Move c s (set_pc s c (looping s.sem.word))
  pushes :
      {previous : ℕ}
      → s.pc c ≡ looping previous
      → s.sem.word ≡ previous
      → Move c s (push s c previous)
  retries :
      {previous : ℕ}
      → s.pc c ≡ looping previous
      → Move c s (set_pc (link s c previous) c (looping s.sem.word))
  releases : (amount : ℕ) → s.pc c ≡ idle → 1 ≤ amount → Move c s (release s amount)

-- What `control` does with the result of `transfer`.
abbrev pub looked : Control → ℕ → Control
looked spinning h = if h == 0 then spinning else resuming h
looked _ h = if h == 0 then missed else found h

abbrev pub searches : Control → Bool
searches transferring = true
searches spinning = true
searches _ = false

-- A move of `control`. That it yields to its event loop now and then is a pause between moves.
pub data Turn (s : System) : System → Type 0 where
  look :
      (fuel : ℕ) {h : ℕ} {m : Sem}
      → searches s.control ≡ true
      → transfer fuel s.sem ≡ some (h, m)
      → Turn s (record s { sem = m; control = looked s.control h })
  add_found : {h : ℕ} → s.control ≡ found h → Turn s (add_active s (resuming h))
  add_missed :
      s.control ≡ missed
      → Turn s (add_active s (if negative s.sem.active then spinning else subtracting))
  resumes : {h : ℕ} → s.control ≡ resuming h → Turn s (resume s h)
  subtracts : s.control ≡ subtracting → Turn s (finish s)

-- Of the coroutines below `n` any one may move next, or `control`.
pub data Step (n : ℕ) (s : System) : System → Type 0 where
  pick : (c : ℕ) {t : System} → 2 ≤ c → c < n → Move c s t → Step n s t
  turn : {t : System} → Turn s t → Step n s t

-- The constructor.
abbrev pub init : ℕ → System
init start = record {
  sem = record { word = 0; transfer = 0; links = λ _. 0; active = pos start; release_count = 0 };
  pc = λ _. idle;
  control = off;
  granted = 0;
  released = 0;
  pushed = [];
  woken = [];
}

pub data Reach (n start : ℕ) : System → Type 0 where
  begun : Reach n start (init start)
  later : {before after : System} → Reach n start before → Step n before after → Reach n start after
