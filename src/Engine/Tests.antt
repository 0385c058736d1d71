-- ===== src/Engine/Tests.antt =====
-- A concrete engine of three loops.
use zab.Prelude.{
  ℕ, zero, suc, ◌-◌, ◌≤◌, ◌<◌, ◌^◌, ◌≡◌, refl, true, List, [], ◌∷◌, Option, none, some, get_elem?,
  arith, inl, ap,
}
use zab.EventLoop.{Loop, init, dispatch_user_event}
use zab.Engine.{
  Configs, exact, validate, core_count, get_any_thread, scan, thread_resume, any_thread,
}
use zab.Engine.Threads.{validate_lem}
use zab.Engine.Dispatch.{Resumed, thread_resume-Resumed}

abbrev no_threads : Configs
no_threads = record { threads = 0; opt = exact; affinity_set = true; affinity_offset = 0 }

validate_example :
    (let cores = core_count 0 8 in
      (1 ≤ (validate no_threads cores).threads)
      × ((validate no_threads cores).threads < 2 ^ 16)
      × (validate (validate no_threads cores) cores ≡ validate no_threads cores))
validate_example = validate_lem no_threads 0 8 (omega arith)

-- The second loop is the first with one event.
picks_second : get_any_thread (2 ∷ 1 ∷ 3 ∷ 1 ∷ []) ≡ 1
unfolding get_any_thread scan
picks_second = refl

abbrev one_event : Loop
unfolding dispatch_user_event
one_event = dispatch_user_event init 9

abbrev two_loops : List Loop
two_loops = one_event ∷ init ∷ []

abbrev size_or_zero : Option Loop → ℕ
size_or_zero none = 0
size_or_zero (some l) = l.size

two_loops_small : (j : ℕ) (l : Loop) → get_elem? two_loops j ≡ some l → l.size < 2 ^ 64 - 1
unfolding one_event dispatch_user_event
two_loops_small zero l e = omega (arith, ap size_or_zero e)
two_loops_small (suc zero) l e = omega (arith, ap size_or_zero e)
two_loops_small (suc (suc j)) l e = cc

thread_resume_example : Resumed two_loops 7 any_thread (thread_resume two_loops 7 any_thread)
thread_resume_example =
    thread_resume-Resumed two_loops 7 any_thread (omega arith) (omega arith) two_loops_small
      (inl refl)
