-- ===== src/PauseToken.antt =====
-- includes/zab/pause_token.hpp: coroutines that await, pause and unpause one token, in any
-- interleaving. A coroutine is named by the address of its `pauser`. A turn is one access to the
-- atomic word `resuming_` with the local work that follows it, or one resumption by `unpause`.
pub mod Invariant
pub mod Turns
pub mod Unpause
mod Tests
use zab.Prelude.{
  ℕ, ◌%◌, ◌≤◌, ◌<◌, ◌≡◌, ◌==◌, ltb, not, ◌&&◌, ◌||◌, Bool, true, false, List, [], ◌∷◌, Option, none,
  some, update, if◌then◌else◌,
}
use zab.Memory.{Links}

-- `kUnpausedFlag`
abbrev pub unpaused_flag : ℕ
unpaused_flag = 1

-- `resuming_` and the `next_waiting_` of every pauser
pub record Token : Type 0 where
  pub word : ℕ
  pub links : Links

-- `paused`: bit 0 of the word, which no address of a pauser has set.
abbrev pub paused : Token → Bool
paused t = not (t.word % 2 == unpaused_flag)

pub data Call : Type 0 where
  await pause unpause : Call

pub data Pc : Type 0 where
  idle : Pc
  checking : Pc  -- `await_ready`, before the load
  loading : Pc  -- `pause(pauser*)`, before the load
  looping : (previous : ℕ) → Pc  -- `pause(pauser*)`, the loop
  waiting : Pc  -- suspended
  clear_loading : Pc  -- `pause()`, before the load
  clearing : (current : ℕ) → Pc  -- `pause()`, before the compare-exchange
  unpausing : Pc  -- `unpause`, before the exchange
  walking : (old : ℕ) → Pc  -- `unpause`, the loop

pub record Outcome : Type 0 where
  pub token : Token
  pub pc : Pc
  pub woken : Option ℕ

abbrev pub moves : Token → Pc → Outcome
moves t p = record { token = t; pc = p; woken = none }

-- One turn of the coroutine `c`. `weak` makes a weak compare-exchange fail without cause.
unfoldable pub access : ℕ → Call → Bool → Token → Pc → Outcome
access c await weak t idle = moves t checking
access c pause weak t idle = moves t clear_loading
access c unpause weak t idle = moves t unpausing
access c call weak t checking = if paused t then moves t loading else moves t idle
access c call weak t loading = moves t (looping t.word)
access c call weak t (looping previous) =
    if previous == unpaused_flag
    then moves t idle
    else let linked = update t.links c previous in
      if not weak && t.word == previous
      then moves (record { word = c; links = linked }) waiting
      else moves (record { word = t.word; links = linked }) (looping t.word)
access c call weak t waiting = moves t waiting
access c call weak t clear_loading =
    if t.word == unpaused_flag then moves t (clearing t.word) else moves t idle
access c call weak t (clearing current) =
    if not weak && t.word == current
    then moves (record t { word = 0 }) idle
    else if t.word == unpaused_flag
    then moves t (clearing t.word)
    else moves t idle
access c call weak t unpausing =
    let taken = record t { word = unpaused_flag } in
    if t.word == unpaused_flag then moves taken idle else moves taken (walking t.word)
access c call weak t (walking old) =
    if old == 0
    then moves t idle
    else record { token = t; pc = walking (t.links old); woken = some old }

pub record System : Type 0 where
  pub token : Token
  pub pc : ℕ → Pc

-- The constructor leaves `resuming_` 0.
abbrev pub init : System
init = record { token = record { word = 0; links = λ _. 0 }; pc = λ _. idle }

-- `thread_resume` lets the woken coroutine run on behind its `co_await`.
abbrev pub wake : Option ℕ → (ℕ → Pc) → ℕ → Pc
wake none pc = pc
wake (some j) pc = update pc j idle

-- One entry of a schedule.
pub record Turn : Type 0 where
  pub who : ℕ
  pub call : Call
  pub weak : Bool

-- Addresses lie between 2 and the bound `n`; other entries do nothing.
unfoldable pub turn : ℕ → System → Turn → System
turn n s e =
    let o = access e.who e.call e.weak s.token (s.pc e.who) in
    if ltb e.who 2 || not (ltb e.who n)
    then s
    else record { token = o.token; pc = wake o.woken (update s.pc e.who o.pc) }

unfoldable pub run : ℕ → System → List Turn → System
run n s [] = s
run n s (e ∷ rest) = run n (turn n s e) rest

abbrev pub waits : Pc → ℕ
waits waiting = 1
waits _ = 0
