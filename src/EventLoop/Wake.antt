-- ===== src/EventLoop/Wake.antt =====
-- No event is left behind by a wake-up that is lost.
use zab.Prelude.{
  ℕ, zero, suc, ◌+◌, ◌<◌, ◌≡◌, ◌≢◌, refl, sym, ap, ◌∙◌, false, if◌then◌else◌, List, [], ◌∷◌,
  append-nil, length, arith, ◌⊎◌, inl, inr,
}
use zab.EventLoop.{
  Loop, Runner, swapping, running, reading, returned, init, wake, swap, next, read_done, Step,
  notify, take_over, proceed, complete, Steps, stay, go,
}
use zab.EventLoop.Fifo.{Kept, init-Kept, Step-Kept, Steps-Kept, List-cases}

Steps-append : {l m n : Loop} → Steps l m → Steps m n → Steps l n
Steps-append s stay = s
Steps-append s (go t u) = go (Steps-append s t) u

-- The batch in hand resumed, up to the read of the eventfd.
record ReadsNext (l : Loop) : Type 0 where
  m : Loop
  steps : Steps l m
  reads : m.runner ≡ reading
  same : m.dispatched ≡ l.dispatched
  kept : m.write ≡ l.write
  going : m.stopping ≡ l.stopping

next-ReadsNext : (events : List ℕ) (l : Loop) → l.read ≡ events → l.runner ≡ running → ReadsNext l
unfolding next
next-ReadsNext [] l e r = record {
  m = next l;
  steps = go stay (proceed r);
  reads = rw (e, next) refl;
  same = rw (e, next) refl;
  kept = rw (e, next) refl;
  going = rw (e, next) refl;
}
next-ReadsNext (x ∷ xs) l e r =
    let b : ReadsNext (next l) = next-ReadsNext xs (next l) (rw (e, next) refl) (rw (e, next) r) in
    record {
      m = b.m;
      steps = Steps-append (go stay (proceed r)) b.steps;
      reads = b.reads;
      same = b.same ∙ rw (e, next) refl;
      kept = b.kept ∙ rw (e, next) refl;
      going = b.going ∙ rw (e, next) refl;
    }

-- All that was dispatched resumed, without another dispatch and without a stop.
pub record Drained (l : Loop) : Type 0 where
  pub m : Loop
  pub steps : Steps l m
  pub same : m.dispatched ≡ l.dispatched
  pub going : m.stopping ≡ false
  pub all : m.resumed ≡ l.dispatched

-- Nothing in the write queue, before the read: every event is resumed.
idle : (l : Loop) → Kept l → l.runner ≡ reading → l.write ≡ [] → l.resumed ≡ l.dispatched
idle l k r e = elim k.clear [
  | inl x ↦ cc
  | inr none_left ↦ sym (k.order ∙ rw (none_left, e) (append-nil l.resumed))
]

from_swapping : (l : Loop) → Kept l → l.stopping ≡ false → l.runner ≡ swapping → Drained l
unfolding swap
from_swapping l k g r =
    let b : ReadsNext (swap l) = next-ReadsNext l.write (swap l) refl refl in
    let s : Steps l b.m = Steps-append (go stay (take_over r)) b.steps in
    let none_left : l.read ≡ [] = elim k.clear [ inl x ↦ cc | inr e ↦ e ] in
    record {
      m = b.m;
      steps = s;
      same = b.same;
      going = b.going ∙ g;
      all = idle b.m (Steps-Kept s k) b.reads (b.kept ∙ none_left) ∙ b.same;
    }

readable : (l : Loop) → Kept l → l.stopping ≡ false → l.runner ≡ reading → 0 < l.eventfd → Drained l
unfolding read_done
readable l k g r h =
    let s : Step l (read_done l) = complete r h in
    let d : Drained (read_done l) =
      from_swapping (read_done l) (Step-Kept s k) g
        (ap (λ b. if b then returned else swapping) g) in
    record {
      m = d.m;
      steps = Steps-append (go stay s) d.steps;
      same = d.same;
      going = d.going;
      all = d.all;
    }

from_reading : (l : Loop) → Kept l → l.stopping ≡ false → l.runner ≡ reading → Drained l
unfolding wake
from_reading l k g r = elim (List-cases l.write) [
  | inl e ↦ record { m = l; steps = stay; same = refl; going = g; all = idle l k r e }
  | inr (x, xs, e) ↦ elim k.announced [
    | inl z ↦ absurd (omega (arith, z, ap length e))
    | inr (inl h) ↦ elim (pending l.waking l.eventfd h) [
      | inl w ↦
          let s : Step l (wake l) = notify w in
          let d : Drained (wake l) = readable (wake l) (Step-Kept s k) g r (omega arith) in
          record {
            m = d.m;
            steps = Steps-append (go stay s) d.steps;
            same = d.same;
            going = d.going;
            all = d.all;
          }
      | inr f ↦ readable l k g r f
    ]
    | inr (inr (inl h)) ↦ cc
    | inr (inr (inr h)) ↦ cc
  ]
]
  where
    pending : (a b : ℕ) → 0 < a + b → (0 < a) ⊎ (0 < b)
    pending zero b h = inr (omega arith)
    pending (suc a) b h = inl (omega arith)

from_running : (l : Loop) → Kept l → l.stopping ≡ false → l.runner ≡ running → Drained l
from_running l k g r =
    let b : ReadsNext l = next-ReadsNext l.read l refl r in
    let d : Drained b.m = from_reading b.m (Steps-Kept b.steps k) (b.going ∙ g) b.reads in
    record {
      m = d.m;
      steps = Steps-append b.steps d.steps;
      same = d.same ∙ b.same;
      going = d.going;
      all = d.all ∙ b.same;
    }

Runner-cases : (r : Runner) → (r ≡ swapping) ⊎ ((r ≡ running) ⊎ ((r ≡ reading) ⊎ (r ≡ returned)))
Runner-cases swapping = inl refl
Runner-cases running = inr (inl refl)
Runner-cases reading = inr (inr (inl refl))
Runner-cases returned = inr (inr (inr refl))

-- From every reachable state in which no stop was requested and the coroutine has not returned there are
-- steps, without another dispatch and without a stop request, after which every event dispatched so far
-- is resumed: no wake-up is lost.
pub no_lost_event : (l : Loop) → Steps init l → l.stopping ≡ false → l.runner ≢ returned → Drained l
no_lost_event l s g alive =
    let k : Kept l = Steps-Kept s init-Kept in
    elim (Runner-cases l.runner) [
      | inl r ↦ from_swapping l k g r
      | inr (inl r) ↦ from_running l k g r
      | inr (inr (inl r)) ↦ from_reading l k g r
      | inr (inr (inr r)) ↦ absurd (alive r)
    ]
