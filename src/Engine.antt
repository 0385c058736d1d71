-- ===== src/Engine.antt =====
-- src/engine.cpp: the number of threads, the choice of a thread, and how an event gets to an event loop
-- or a timer service. Thread ids are 16-bit words, sizes 64-bit ones. The threads themselves, their
-- affinity and the assertions are not modelled; an index past the loops or timers is `none`.
pub mod Threads
pub mod Dispatch
pub mod Delay
mod Tests
use zab.Prelude.{
  ℕ, zero, suc, ◌+◌, ◌-◌, ◌%◌, ◌^◌, ◌≡◌, ◌==◌, Bool, true, false, ltb, max, min, List, [], ◌∷◌, map,
  Option, none, some, if◌then◌else◌, get_elem?,
}
use zab.EventLoop.{Loop, dispatch_user_event}
use zab.Timer.{TimerFd, Timer, wait}

-- `thread_t::kAnyThread`
abbrev pub any_thread : ℕ
any_thread = 65534

pub data ThreadOption : Type 0 where
  any at_least exact : ThreadOption

-- `engine::configs`
pub record Configs : Type 0 where
  pub threads : ℕ
  pub opt : ThreadOption
  pub affinity_set : Bool
  pub affinity_offset : ℕ

-- `core_count`, by what `hardware_concurrency` says and the lines "processor" of /proc/cpuinfo.
unfoldable pub core_count : (hardware processors : ℕ) → ℕ
core_count hardware processors =
    let count = if hardware == 0 then processors % 2 ^ 32 else hardware in
    if ltb 65535 count then 65535 else count

abbrev pub at_least_one : Configs → Configs
at_least_one c = if c.threads == 0 then record c { threads = 1 } else c

-- `validate`: the configuration it leaves, whose number of threads it returns.
unfoldable pub validate : Configs → (cores : ℕ) → Configs
validate c cores = at_least_one (elim c.opt [
  | any ↦ record c { threads = cores }
  | at_least ↦ record c { threads = max cores c.threads }
  | exact ↦ c
])

-- The loop of `get_any_thread` over the sizes of the loops.
unfoldable pub scan : List ℕ → (current min_size thread : ℕ) → ℕ
scan [] current min_size thread = thread
scan (es ∷ sizes) current min_size thread =
    let smaller = scan sizes (suc current % 2 ^ 16) es current in
    let other = scan sizes (suc current % 2 ^ 16) min_size thread in
    if es == 0 then current else if ltb es min_size then smaller else other

-- `get_any_thread`
unfoldable pub get_any_thread : List ℕ → ℕ
get_any_thread sizes = scan sizes 0 (2 ^ 64 - 1) any_thread

abbrev pub put {ℓ} : {A : Type ℓ} → List A → ℕ → A → List A
put [] i x = []
put (y ∷ ys) zero x = x ∷ ys
put (y ∷ ys) (suc i) x = y ∷ put ys i x

abbrev pub sizes : List Loop → List ℕ
sizes [] = []
sizes (l ∷ loops) = l.size ∷ sizes loops

-- `if (_thread.thread_ == thread_t::kAnyThread) { _thread = get_any_thread(); }`
abbrev pub choose : List Loop → ℕ → ℕ
choose loops thread = if thread == any_thread then get_any_thread (sizes loops) else thread

-- `thread_resume`, over `event_loop_`
unfoldable pub thread_resume : List Loop → (event thread : ℕ) → Option (List Loop)
thread_resume loops event thread = elim (get_elem? loops (choose loops thread)) [
  | none ↦ none
  | some l ↦ some (put loops (choose loops thread) (dispatch_user_event l event))
]

module _ (os : TimerFd) where
  -- `event_loop_` and `timers_`
  pub record Engine : Type 0 where
    pub loops : List Loop
    pub timers : List (Timer os)

  -- `delayed_resume` on the thread `here`
  unfoldable pub delayed_resume : Engine → (event order thread here : ℕ) → Option Engine
  delayed_resume e event order thread here =
      let thread' = choose e.loops thread in
      if order == 0
      then elim (thread_resume e.loops event thread') [
        | none ↦ none
        | some loops ↦ some (record e { loops = loops })
      ]
      else elim (get_elem? e.timers here) [
        | none ↦ none
        | some t ↦ elim (wait os t event order thread' here) [
          | none ↦ none
          | some t' ↦ some (record e { timers = put e.timers here t' })
        ]
      ]
