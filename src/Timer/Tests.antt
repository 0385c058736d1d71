-- ===== src/Timer/Tests.antt =====
-- A service with three sleepers, over a timer that takes every setting.
use zab.Prelude.{◌+◌, ◌-◌, ◌*◌, ◌≡◌, refl, [], ◌∷◌, ◌++◌, some, arith}
use mathlib.Core.Option
use zab.Timer.Buckets.{find, emplace, begins_with, expire, due, Ascends, flat}
use zab.Timer.{Spec, TimerFd, to_spec, Timer, change_timer, file_at, wait, rearm, tick, run}
use zab.Timer.Laws.{Inv}
use zab.Timer.Rounds.{ones, tick_resumes, drain}
use zab.Timer.Abstract.Refines

kept_setting : (fd fd' s : Spec) → some s ≡ some fd' → some fd' ≡ some s
kept_setting fd fd' s e = cc

-- The timer is the setting that it was given.
abbrev kernel : TimerFd
kernel = record {
  Fd = Spec;
  settime = λ fd s. some s;
  interval = λ fd. some fd;
  interval-settime = kept_setting;
}

abbrev sleepers : Timer kernel
sleepers = record {
  waiting = (50, (7, 1) ∷ []) ∷ (80, (8, 2) ∷ (9, 0) ∷ []) ∷ [];
  current = 20;
  fd = to_spec 30;
}

sleepers-Inv : Inv kernel sleepers
sleepers-Inv = record { ascends = omega arith; bounded = omega arith; armed = refl }

-- The first sleeper till a mark goes to the calling thread, 3, though it asked for thread 5.
first_sleeper_thread :
    Option.map (λ (t : Timer kernel). find 60 t.waiting) (wait kernel sleepers 6 40 5 3)
    ≡ some (some ((6, 3) ∷ []))
unfolding wait file_at find emplace begins_with change_timer
first_sleeper_thread = refl

abbrev after_wait : Timer kernel
after_wait = record sleepers {
  waiting = (40, (6, 3) ∷ []) ∷ (50, (7, 1) ∷ []) ∷ (80, (8, 2) ∷ (9, 0) ∷ []) ∷ [];
  fd = to_spec 20;
}

abbrev after_tick : Timer kernel
after_tick = record { waiting = []; current = 0; fd = to_spec 0 }

tick_resumes_example :
    ((7, 1) ∷ (8, 2) ∷ (9, 0) ∷ [] ≡ due (20 + (50 - 20) * 2) sleepers.waiting)
    × (flat sleepers.waiting ≡ ((7, 1) ∷ (8, 2) ∷ (9, 0) ∷ []) ++ flat after_tick.waiting)
    × Ascends (20 + (50 - 20) * 2) after_tick.waiting
    × Inv kernel after_tick
unfolding tick expire rearm
tick_resumes_example =
    tick_resumes kernel sleepers after_tick 50 ((7, 1) ∷ []) ((80, (8, 2) ∷ (9, 0) ∷ []) ∷ []) 2
      ((7, 1) ∷ (8, 2) ∷ (9, 0) ∷ []) sleepers-Inv refl (omega arith) (omega arith) refl

drain_example :
    (t' : Timer kernel) × (run kernel sleepers (ones 2) ≡ some (t', (7, 1) ∷ (8, 2) ∷ (9, 0) ∷ []))
    × (t'.waiting ≡ [])
drain_example = drain kernel (λ fd s. (s, refl)) sleepers.waiting sleepers sleepers-Inv refl

Step-pass_example :
    (Refines.sleepers kernel after_wait
      ≡ Refines.pass 20 (Refines.asleep 6 20) (Refines.sleepers kernel sleepers))
    × Inv kernel after_wait
unfolding wait file_at find emplace begins_with change_timer
Step-pass_example =
    Refines.Step-pass kernel sleepers after_wait (Refines.asleep 6 20) sleepers-Inv
      (Refines.waits 6 20 5 3 (omega arith) (omega arith) refl)
