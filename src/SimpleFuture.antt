-- ===== src/SimpleFuture.antt =====
-- includes/zab/simple_promise.hpp and includes/zab/simple_future.hpp: coroutines that return values in
-- `A` and await one another. A frame is named by its address, `none` is a fault: the use of a frame
-- that is not there, or of a result that is not set.
pub mod Run
mod Tests
use zab.Prelude.{
  ℕ, zero, suc, ◌+◌, Bool, true, false, Option, none, some, List, [], ◌∷◌, ◌++◌, update,
  if◌then◌else◌,
}

-- What a coroutine does: it returns, or it calls one and awaits its future.
pub data Body (A : Type 0) : Type 0 where
  returns : A → Body A
  awaits : Body A → (A → Body A) → Body A

-- `tagged_event`
pub data TaggedEvent : Type 0 where
  nothing : TaggedEvent
  coroutine : ℕ → TaggedEvent
  event : ℕ → TaggedEvent

-- Where a coroutine goes on.
pub data Code (A : Type 0) : Type 0 where
  runs : Body A → Code A
  resumes : ℕ → (A → Body A) → Code A  -- in `await_resume` of a future
  over : Code A  -- at its final suspension

-- The promise with its coroutine.
pub record Frame (A : Type 0) : Type 0 where
  pub underlying : TaggedEvent
  pub complete : Bool
  pub content : Option A
  pub code : Code A

-- The frames, the next address, the coroutine that runs, and the events that were executed.
pub record Heap (A : Type 0) : Type 0 where
  pub store : ℕ → Option (Frame A)
  pub next : ℕ
  pub current : Option ℕ
  pub executed : List ℕ

-- What runs behind a final suspension, and the event it executes.
abbrev pub running : TaggedEvent → Option ℕ
running (coroutine a) = some a
running _ = none

abbrev pub executes : TaggedEvent → List ℕ
executes (event e) = e ∷ []
executes _ = []

module _ {A : Type 0} where
  -- The call of a coroutine, which suspends at its start.
  abbrev pub new_frame : Body A → Frame A
  new_frame body = record {
    underlying = nothing;
    complete = false;
    content = none;
    code = runs body;
  }

  abbrev pub put : Heap A → ℕ → Option (Frame A) → Heap A
  put h a f = record h { store = update h.store a f }

  -- `set_underlying`, and the resumption of the coroutine.
  abbrev pub enter : Heap A → ℕ → Frame A → TaggedEvent → Heap A
  enter h a f who = record h {
    store = update h.store a (some (record f { underlying = who }));
    current = some a;
  }

  -- The call of `child` with the `await_suspend` of its future, which transfers to it.
  abbrev pub call : Heap A → ℕ → Frame A → Body A → (A → Body A) → Heap A
  call h c f child then_ =
      let called = record (put h c (some (record f { code = resumes h.next then_ }))) {
        next = suc h.next;
      } in
      enter called h.next (new_frame child) (coroutine c)

  -- `return_value`, then `final_suspension::await_suspend`.
  abbrev pub finish : Heap A → ℕ → Frame A → A → Heap A
  finish h c f v = record h {
    store =
        update h.store c
          (some (record { underlying = nothing; complete = true; content = some v; code = over }));
    current = running f.underlying;
    executed = h.executed ++ executes f.underlying;
  }

  -- `~simple_future`: a coroutine that is not complete is not destroyed.
  abbrev pub destroy : Heap A → ℕ → Frame A → Heap A
  destroy h a f = if f.complete then put h a none else h

  -- `await_resume`, and the end of the future.
  abbrev pub resume_with :
      Heap A → ℕ → Frame A → ℕ → (A → Body A) → Frame A → Option A → Option (Heap A)
  resume_with h c f a then_ g none = none
  resume_with h c f a then_ g (some v) =
      some (put (destroy h a g) c (some (record f { code = runs (then_ v) })))

  abbrev pub resume_from :
      Heap A → ℕ → Frame A → ℕ → (A → Body A) → Option (Frame A) → Option (Heap A)
  resume_from h c f a then_ none = none
  resume_from h c f a then_ (some g) = resume_with h c f a then_ g g.content

  abbrev pub act : Heap A → ℕ → Frame A → Code A → Option (Heap A)
  act h c f (runs (returns v)) = some (finish h c f v)
  act h c f (runs (awaits child then_)) = some (call h c f child then_)
  act h c f (resumes a then_) = resume_from h c f a then_ (h.store a)
  act h c f over = none

  abbrev pub act_in : Heap A → ℕ → Option (Frame A) → Option (Heap A)
  act_in h c none = none
  act_in h c (some f) = act h c f f.code

  -- The coroutine that runs, up to its next suspension or resumption.
  abbrev pub step_at : Heap A → Option ℕ → Option (Heap A)
  step_at h none = none
  step_at h (some c) = act_in h c (h.store c)

  unfoldable pub step : Heap A → Option (Heap A)
  step h = step_at h h.current

  abbrev pub then_run : (Heap A → Option (Heap A)) → Option (Heap A) → Option (Heap A)
  then_run k none = none
  then_run k (some h) = k h

  pub run : ℕ → Heap A → Option (Heap A)
  run zero h = some h
  run (suc n) h = then_run (run n) (step h)

  -- `inline_co_await` of the future of a coroutine with an event.
  abbrev pub start : Body A → ℕ → Heap A
  start body e =
      enter (record { store = λ a. none; next = 1; current = none; executed = [] }) 0
        (new_frame body) (event e)

  -- What a coroutine computes, as a function, and how many steps it takes.
  pub value : Body A → A
  value (returns v) = v
  value (awaits child then_) = value (then_ (value child))

  pub steps : Body A → ℕ
  steps (returns v) = 1
  steps (awaits child then_) = suc (steps child + suc (steps (then_ (value child))))
