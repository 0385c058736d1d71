-- ===== src/Timer.antt =====
-- includes/zab/timer_service.hpp and src/timer_service.cpp: coroutines that sleep on one timerfd. The
-- kernel's timer is a parameter; `std::map` is a list of marks in ascending order.
pub mod Buckets
pub mod Abstract
pub mod Laws
pub mod Rounds
pub mod Order
mod Tests
use zab.Prelude.{
  ℕ, ◌+◌, ◌/◌, ◌%◌, ◌≡◌, ◌==◌, Bool, true, false, List, [], ◌∷◌, ◌++◌, Option, none, some,
  if◌then◌else◌, add64, mul64, sub64,
}
use zab.Timer.Buckets.{Map, Waiter, find, emplace, append_at, begins_with, expire}

-- `kNanoInSeconds`
abbrev pub nano_in_seconds : ℕ
nano_in_seconds = 1000000000

-- `struct timespec`
pub record Spec : Type 0 where
  pub sec : ℕ
  pub nsec : ℕ

-- `timerfd_settime` with equal value and interval, and the interval that `timerfd_gettime` reports;
-- `none` is a negative return. The interval is the one that was set last.
pub record TimerFd : Type 1 where
  pub Fd : Type 0
  pub settime : Fd → Spec → Option Fd
  pub interval : Fd → Option Spec
  pub interval-settime : (fd fd' : Fd) (s : Spec) → settime fd s ≡ some fd' → interval fd' ≡ some s

abbrev pub to_spec : ℕ → Spec
to_spec nanos = record { sec = nanos / nano_in_seconds; nsec = nanos % nano_in_seconds }

-- The product of `run`, before the count of expirations.
abbrev pub to_nanos : Spec → ℕ
to_nanos s = add64 (mul64 s.sec nano_in_seconds) s.nsec

module _ (os : TimerFd) where
  open os use {Fd, settime, interval}

  -- `waiting_`, `current_` and the timer behind `timer_fd_`
  pub record Timer : Type 0 where
    pub waiting : Map
    pub current : ℕ
    pub fd : Fd

  -- `none` is the call of `abort`.
  unfoldable pub change_timer : Timer → ℕ → Option Timer
  change_timer t nanos = elim (settime t.fd (to_spec nanos)) [
    | none ↦ none
    | some fd ↦ some (record t { fd = fd })
  ]

  -- `wait(_handle, _nano_seconds, _thread)`, called on the thread `here`, below its `sleep_mark`.
  unfoldable pub file_at : Timer → (sleep_mark handle nanos thread here : ℕ) → Option Timer
  file_at t mark handle nanos thread here = elim (find mark t.waiting) [
    | none ↦
        let t' = record t { waiting = emplace mark ((handle, here) ∷ []) t.waiting } in
        if begins_with mark t'.waiting then change_timer t' nanos else some t'
    | some _ ↦ some (record t { waiting = append_at mark (handle, thread) t.waiting })
  ]

  unfoldable pub wait : Timer → (handle nanos thread here : ℕ) → Option Timer
  wait t handle nanos thread here = file_at t (add64 t.current nanos) handle nanos thread here

  -- The end of a round of `run`: disarm, or arm for the earliest mark.
  unfoldable pub rearm : Map → ℕ → Fd → Option Timer
  rearm [] now fd = elim (settime fd (record { sec = 0; nsec = 0 })) [
    | none ↦ none
    | some fd' ↦ some (record { waiting = []; current = 0; fd = fd' })
  ]
  rearm ((mark, ws) ∷ rest) now fd =
      change_timer (record { waiting = (mark, ws) ∷ rest; current = now; fd = fd }) (sub64 mark now)

  -- A round of `run` whose read returned `expirations`; with the waiters handed to `thread_resume`.
  unfoldable pub tick : Timer → (expirations : ℕ) → Option (Timer × List Waiter)
  tick t expirations = if expirations == 0 then some (t, []) else elim (interval t.fd) [
    | none ↦ none
    | some s ↦
        let now = add64 t.current (mul64 (to_nanos s) expirations) in
        let (resumed, left) = expire now t.waiting in
        elim (rearm left now t.fd) [ none ↦ none | some t' ↦ some (t', resumed) ]
  ]

  -- The loop of `run`: what each read returned, `none` for one that is cancelled or fails.
  unfoldable pub run : Timer → List (Option ℕ) → Option (Timer × List Waiter)
  run t [] = some (t, [])
  run t (none ∷ reads) = some (t, [])
  run t (some n ∷ reads) = elim (tick t n) [
    | none ↦ none
    | some (t', resumed) ↦ elim (run t' reads) [
      | none ↦ none
      | some (t'', later) ↦ some (t'', resumed ++ later)
    ]
  ]
