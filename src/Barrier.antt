-- ===== src/Barrier.antt =====
-- includes/zab/async_barrier.hpp. An entry of the working set is a word: the address of a node, a
-- multiple of 4, with a flag in its low bits that says what the node is. `expected_` and `count_` are
-- 64-bit two's complement patterns. A phase is run without arrivals in between.
pub mod Window
pub mod Trim
pub mod Calls
pub mod Phase
mod Tests
use zab.Prelude.{
  ℕ, zero, suc, ◌+◌, ◌-◌, ◌%◌, ◌≡◌, ◌==◌, Bool, true, false, not, List, [], ◌∷◌, ◌++◌, Option, none,
  some, if◌then◌else◌, update, add64, sub64, neg64, sle64,
}
use zab.Memory.{Links}

-- `kDropFlag`, `kTokenFlag`, `kFlagMask`
abbrev pub drop_flag : ℕ
drop_flag = 1

abbrev pub token_flag : ℕ
token_flag = 2

abbrev pub flag_mask : ℕ
flag_mask = 3

abbrev pub flag : ℕ → ℕ
flag word = word % 4

-- `& kAddressMask`
abbrev pub address : ℕ → ℕ
address word = word - word % 4

pub data Kind : Type 0 where
  waiter token drop : Kind

-- How the loops tell the three apart.
abbrev pub kind : ℕ → Kind
kind word = if flag word == 0 then waiter else if flag word == token_flag then token else drop

-- `get_next`
abbrev pub get_next : Links → ℕ → ℕ
get_next links word = links (address word)

-- `iterate_linked_list`: the functor gets what the node is and its address, and says whether to go on.
-- `none` is fuel that ran out. A functor that writes a link stops the loop.
unfoldable pub iterate {ℓ} : {A : Type ℓ} → ℕ → Links → (Kind → ℕ → A → A × Bool) → ℕ → A → Option A
iterate zero links f word a = if word == 0 then some a else none
iterate (suc fuel) links f word a =
    let out = f (kind word) (address word) a in
    let rest = iterate fuel links f (get_next links word) out.0 in
    if word == 0 then some a else if out.1 then rest else some out.0

-- The members, with the `handle_` and `thread_` of every node; `resumed` are the calls of
-- `thread_resume`, and `phases` those of the completion function.
pub record Barrier : Type 0 where
  pub expected : ℕ
  pub working_set : ℕ
  pub count : ℕ
  pub links : Links
  pub handles : ℕ → ℕ
  pub threads : ℕ → ℕ
  pub resumed : List (ℕ × ℕ)
  pub phases : ℕ

-- The functor of `aquire_window`, over `count` and `head`.
abbrev pub slide : ℕ → Links → ℕ → Kind → ℕ → ℕ × ℕ → (ℕ × ℕ) × Bool
slide expected links current k a (count, head) =
    let head' = if head == 0 then current else get_next links head in
    (if sle64 expected (suc count) then (suc count, head') else (suc count, head), true)

-- One round of `aquire_window` on the loaded word: the head of the window, or 0.
unfoldable pub window_pass : ℕ → ℕ → Links → ℕ → Option ℕ
window_pass fuel expected links current =
    elim (iterate fuel links (slide expected links current) current (0, 0)) [
      | none ↦ none
      | some (count, head) ↦ some head
    ]

-- The functor that cuts the window off.
abbrev pub cut : ℕ → Links → Kind → ℕ → Links → Links × Bool
cut window links k a _ = if links a == window then (update links a 0, false) else (links, true)

-- "Trim window from working set": the new word and links.
unfoldable pub trim : ℕ → ℕ → Links → ℕ → Option (ℕ × Links)
trim fuel working_set links window =
    if working_set == window
    then some (0, links)
    else elim (iterate fuel links (cut window links) working_set links) [
      | none ↦ none
      | some links' ↦ some (working_set, links')
    ]

abbrev pub count_drop : Kind → ℕ → ℕ → ℕ × Bool
count_drop drop a n = (suc n, true)
count_drop _ a n = (n, true)

-- The functor of `resume_frames`, over the handles and the resumptions.
abbrev pub resume : (ℕ → ℕ) → Kind → ℕ → (ℕ → ℕ) × List (ℕ × ℕ) → ((ℕ → ℕ) × List (ℕ × ℕ)) × Bool
resume threads waiter a (handles, out) =
    ((handles, if handles a == 0 then out else out ++ ((handles a, threads a) ∷ [])), true)
resume threads token a (handles, out) = (
  if handles a == 0
      then (update handles a flag_mask, out)
      else (handles, out ++ ((handles a, threads a) ∷ [])),
  true,
)
resume threads drop a (handles, out) = ((handles, out), true)

-- `resume_frames`; the second result is whether another phase is scheduled.
unfoldable pub resume_frames : ℕ → Barrier → ℕ → Option (Barrier × Bool)
resume_frames fuel b window =
    let b' = record b { count = add64 b.count b.expected } in
    elim (iterate fuel b.links (resume b.threads) window (b.handles, b.resumed)) [
      | none ↦ none
      | some (handles, out) ↦
          some (record b' { handles = handles; resumed = out }, sle64 b.count (neg64 b.expected))
    ]

-- `complete_phase` from a round of `aquire_window` that finds a window; `none` if it does not.
unfoldable pub complete_phase : ℕ → Barrier → Option (Barrier × Bool)
complete_phase fuel b = elim (window_pass fuel b.expected b.links b.working_set) [
  | none ↦ none
  | some window ↦ if window == 0 then none else elim (trim fuel b.working_set b.links window) [
    | none ↦ none
    | some (working_set, links) ↦ elim (iterate fuel links count_drop window 0) [
      | none ↦ none
      | some amount_to_drop ↦
          resume_frames fuel
            (record b {
              working_set = working_set;
              links = links;
              phases = suc b.phases;
              expected = sub64 b.expected amount_to_drop;
            })
            window
    ]
  ]
]

-- An arrival up to the test of `amount`: `arrive_and_wait` with the coroutine `handle`, or
-- `arrive_and_drop`. The second result is whether it completes the phase.
unfoldable pub arrive_and_wait : Barrier → (a handle thread : ℕ) → Barrier × Bool
arrive_and_wait b a handle thread = (
  record b {
    count = sub64 b.count 1;
    handles = update b.handles a handle;
    threads = update b.threads a thread;
    links = update b.links a b.working_set;
    working_set = a;
  },
  b.count == 1,
)

unfoldable pub arrive_and_drop : Barrier → (a : ℕ) → Barrier × Bool
arrive_and_drop b a = (
  record b {
    count = sub64 b.count 1;
    links = update b.links a b.working_set;
    working_set = a + drop_flag;
  },
  b.count == 1,
)
