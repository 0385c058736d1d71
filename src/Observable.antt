-- ===== src/Observable.antt =====
-- includes/zab/observable.hpp. A move is what one of its mutexes guards, or one `count_down` of a
-- latch, so any interleaving of emitters and observers is a sequence of moves. Observers and
-- emissions are numbered in the order in which they are made; an observer has one coroutine.
pub mod Latches
pub mod Owed
pub mod Counting
pub mod Emissions
mod Tests
use zab.Prelude.{
  ℕ, zero, suc, ◌+◌, ◌-◌, ◌^◌, ◌≤◌, ◌<◌, ◌≡◌, ◌==◌, Bool, true, false, Option, none, some, List, [],
  ◌∷◌, ◌++◌, update, if◌then◌else◌, length,
}
use zab.Latch.{Latch, create, count_down}

-- `internal_observer`: the emissions on its list, whether a coroutine is suspended on it, and whether
-- one goes on to `await_resume`.
pub record Slot : Type 0 where
  pub results : List ℕ
  pub handle : Bool
  pub taking : Bool

abbrev pub new_slot : Slot
new_slot = record { results = []; handle = false; taking = false }

-- `observers_`; the emission that holds the mutex, with the observers it has still to visit; the
-- latch of every emission; the guards of its results; and whether its emitter has still to arrive. The
-- destructor of an `internal_observer`, which runs under the mutex, has the results `leaving` before it,
-- the first of them in `tmp`, and tells by `counted` whether it has counted that one down.
pub record Subject : Type 0 where
  pub made : ℕ
  pub slots : ℕ → Slot
  pub observers : List ℕ
  pub emitted : ℕ
  pub emitting : Option (ℕ × List ℕ)
  pub latch : ℕ → Latch
  pub guards : ℕ → ℕ
  pub to_arrive : ℕ → ℕ
  pub begun : ℕ → Bool
  pub leaving : List ℕ
  pub counted : Bool

abbrev pub init : Subject
init = record {
  made = 0;
  slots = λ o. new_slot;
  observers = [];
  emitted = 0;
  emitting = none;
  latch = λ e. create 0;
  guards = λ e. 0;
  to_arrive = λ e. 0;
  begun = λ e. false;
  leaving = [];
  counted = false;
}

-- `connect`
abbrev pub connect : Subject → Subject
connect s = record s {
  made = suc s.made;
  slots = update s.slots s.made new_slot;
  observers = s.observers ++ (s.made ∷ []);
}

-- `latch_->count_down()` for one result of the emission `e`.
abbrev pub arrive_for : (ℕ → Latch) → ℕ → ℕ → Latch
arrive_for latch e = update latch e (count_down (latch e) 1)

-- `observers_.erase` of the first that is the observer.
abbrev pub erase : List ℕ → ℕ → List ℕ
erase [] o = []
erase (x ∷ xs) o = if x == o then xs else x ∷ erase xs o

-- `disconnect`, up to the loop of the destructor of `internal_observer`.
abbrev pub disconnect : Subject → ℕ → Subject
disconnect s o = record s {
  slots = update s.slots o new_slot;
  observers = erase s.observers o;
  leaving = (s.slots o).results;
  counted = false;
}

-- The body of that loop at the result of the emission `e`: `tmp->latch_->count_down()`.
abbrev pub abandon : Subject → ℕ → Subject
abandon s e = record s { latch = arrive_for s.latch e; counted = true }

-- `tmp = tmp->next_`
abbrev pub to_next : Subject → List ℕ → Subject
to_next s rest = record s { leaving = rest; counted = false }

-- `emit`, up to its loop.
abbrev pub emit : Subject → Subject
emit s = record s {
  emitted = suc s.emitted;
  emitting = some (s.emitted, s.observers);
  latch = update s.latch s.emitted (create (length s.observers + 1));
  begun = update s.begun s.emitted true;
}

-- The body of its loop for one observer: the result joins the list, and who waits is resumed.
abbrev pub post : Slot → ℕ → Slot
post slot e = record {
  results = slot.results ++ (e ∷ []);
  handle = false;
  taking = if slot.handle then true else slot.taking;
}

abbrev pub visit : Subject → (e o : ℕ) → List ℕ → Subject
visit s e o rest = record s {
  slots = update s.slots o (post (s.slots o) e);
  emitting = some (e, rest);
}

-- The end of its block, which unlocks the mutex.
abbrev pub unlock : Subject → ℕ → Subject
unlock s e = record s { emitting = none; to_arrive = update s.to_arrive e 1 }

-- `latch->arrive_and_wait()`, the arrival.
abbrev pub arrive : Subject → ℕ → Subject
arrive s e = record s { latch = arrive_for s.latch e; to_arrive = update s.to_arrive e 0 }

-- `await_suspend` of an observer, by its list.
abbrev pub suspend_on : List ℕ → Slot → Slot
suspend_on [] slot = record slot { handle = true }
suspend_on (e ∷ rest) slot = record slot { taking = true }

abbrev pub suspend : Slot → Slot
suspend slot = suspend_on slot.results slot

-- `await_resume` with a first result `e`, which its guard takes.
abbrev pub take : Subject → (o e : ℕ) → List ℕ → Subject
take s o e rest = record s {
  slots = update s.slots o (record (s.slots o) { results = rest; taking = false });
  guards = update s.guards e (suc (s.guards e));
}

-- The destructor of `observer_guard`.
abbrev pub release : Subject → ℕ → Subject
release s e = record s { latch = arrive_for s.latch e; guards = update s.guards e (s.guards e - 1) }

-- There are fewer than 2^63 - 1 observers. The coroutine of an observer awaits it in one place, and
-- is not between its resumption and `await_resume` when the observer is destroyed.
pub data Step (s : Subject) : Subject → Type 0 where
  connects :
      s.emitting ≡ none → s.leaving ≡ [] → length s.observers + 2 < 2 ^ 63 → Step s (connect s)
  disconnects :
      (o : ℕ)
      → s.emitting ≡ none
      → s.leaving ≡ []
      → o < s.made
      → (s.slots o).taking ≡ false
      → Step s (disconnect s o)
  abandons :
      {e : ℕ} {rest : List ℕ} → s.leaving ≡ e ∷ rest → s.counted ≡ false → Step s (abandon s e)
  goes_on :
      {e : ℕ} {rest : List ℕ} → s.leaving ≡ e ∷ rest → s.counted ≡ true → Step s (to_next s rest)
  emits : s.emitting ≡ none → s.leaving ≡ [] → 1 ≤ length s.observers → Step s (emit s)
  visits : {e o : ℕ} {rest : List ℕ} → s.emitting ≡ some (e, o ∷ rest) → Step s (visit s e o rest)
  unlocks : {e : ℕ} → s.emitting ≡ some (e, []) → Step s (unlock s e)
  arrives : (e : ℕ) → s.to_arrive e ≡ 1 → Step s (arrive s e)
  awaits :
      (o : ℕ)
      → o < s.made
      → (s.slots o).taking ≡ false
      → Step s (record s { slots = update s.slots o (suspend (s.slots o)) })
  takes :
      {o e : ℕ} {rest : List ℕ}
      → o < s.made
      → (s.slots o).taking ≡ true
      → (s.slots o).results ≡ e ∷ rest
      → Step s (take s o e rest)
  releases : (e : ℕ) → 1 ≤ s.guards e → Step s (release s e)

pub data Reach : Subject → Type 0 where
  new : Reach init
  later : {before after : Subject} → Reach before → Step before after → Reach after
