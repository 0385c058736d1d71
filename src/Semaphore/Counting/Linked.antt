-- ===== src/Semaphore/Counting/Linked.antt =====
-- The lists of waiters of the counting semaphore: what holds between two moves, and the moves that
-- keep it.
use zab.Prelude.{
  ℕ, ◌+◌, ◌≤◌, ◌≡◌, refl, sym, List, [], ◌∷◌, ◌++◌, arith, update, count, count-append,
  count-reverse_onto, NotIn-of_count, reverse_onto, reverse_onto-append, append_assoc, ap, subst,
  ==-self,
}
use zab.Memory.{Chain, Chain-update}
use zab.Semaphore.Counting.{Sem, Pc, idle, looping, waiting, Control, found, resuming, subtracting}
use zab.Semaphore.Counting.Transfer.{Taken, heads}

-- The waiter that `control` is about to resume.
abbrev pub held : Control → List ℕ
held (found h) = h ∷ []
held (resuming h) = h ∷ []
held _ = []

abbrev pub waits : Pc → ℕ
waits waiting = 1
waits _ = 0

-- Who waits, in the order of arrival: `stack` was pushed on the word, newest first, `queue` is already
-- turned round, and before both there is the waiter that `control` has.
abbrev pub arrivals : Control → List ℕ → List ℕ → List ℕ
arrivals k stack queue = held k ++ (queue ++ reverse_onto stack [])

pub record Linked (m : Sem) (pc : ℕ → Pc) (k : Control) (pushed woken stack queue : List ℕ)
    : Type 0 where
  pub stack_chain : Chain m.links 0 m.word stack
  pub queue_chain : Chain m.links 0 m.transfer queue
  pub parked : (c : ℕ) → count c (held k) + (count c stack + count c queue) ≡ waits (pc c)
  pub order : pushed ≡ woken ++ arrivals k stack queue

pub waits-le : (p : Pc) → waits p ≤ 1
waits-le p = ground arith

module _ {m : Sem} {pc : ℕ → Pc} {k : Control} {pushed woken stack queue : List ℕ}
    (inv : Linked m pc k pushed woken stack queue) where
  open inv use {stack_chain, queue_chain, parked, order}

  -- A move that changes neither the lists nor who waits.
  pub local_move :
      (c : ℕ) (p' : Pc)
      → waits (pc c) ≡ 0
      → waits p' ≡ 0
      → Linked m (update pc c p') k pushed woken stack queue
  local_move c p' w w' = record {
    stack_chain = stack_chain;
    queue_chain = queue_chain;
    parked = λ j. ground (arith, parked j, parked c);
    order = order;
  }

  -- The store to the waiter's own link, before it is on the stack.
  pub link_move :
      (c previous : ℕ)
      → waits (pc c) ≡ 0
      → Linked (record m { links = update m.links c previous }) pc k pushed woken stack queue
  link_move c previous w = record {
    stack_chain =
        Chain-update m.links 0 m.word c previous stack
          (NotIn-of_count c stack (omega (arith, parked c))) stack_chain;
    queue_chain =
        Chain-update m.links 0 m.transfer c previous queue
          (NotIn-of_count c queue (omega (arith, parked c))) queue_chain;
    parked = parked;
    order = order;
  }

  pub control_move : (k' : Control) → held k' ≡ held k → Linked m pc k' pushed woken stack queue
  control_move k' e = record {
    stack_chain = stack_chain;
    queue_chain = queue_chain;
    parked = λ j. rw e (parked j);
    order = rw e order;
  }

  -- `control` lets the waiter that it has go.
  pub wake_move :
      (h : ℕ)
      → k ≡ resuming h
      → Linked m (update pc h idle) subtracting pushed (woken ++ (h ∷ [])) stack queue
  wake_move h e = record {
    stack_chain = stack_chain;
    queue_chain = queue_chain;
    parked = λ j. ground (arith, was j, was h, waits-le (pc h));
    order = rw order (rw e (sym (append_assoc woken (h ∷ []) (queue ++ reverse_onto stack []))));
  }
    where
      was : (j : ℕ) → count j (h ∷ []) + (count j stack + count j queue) ≡ waits (pc j)
      was j =
          subst (λ k. count j (held k) + (count j stack + count j queue) ≡ waits (pc j)) e
            (parked j)

  -- `control` takes a waiter off the lists, or finds none.
  pub take_move :
      (k' : Control) {h : ℕ} {m' : Sem}
      → held k ≡ []
      → held k' ≡ heads h
      → (t : Taken m stack queue h m') → Linked m' pc k' pushed woken t.stack' t.queue'
  take_move k' {h} e e' t = record {
    stack_chain = t.stack_chain;
    queue_chain = t.queue_chain;
    parked = λ j. omega (
      arith,
      parked j,
      ap (count j) t.same,
      count-append j queue (reverse_onto stack []),
      count-reverse_onto j stack [],
      count-append j (heads h) (t.queue' ++ reverse_onto t.stack' []),
      count-append j t.queue' (reverse_onto t.stack' []),
      count-reverse_onto j t.stack' [],
      ap (count j) e,
      ap (count j) e',
    );
    order = rw (order, e, e', t.same) refl;
  }

module _ {m : Sem} {pc : ℕ → Pc} {k : Control} {pushed woken stack queue : List ℕ}
    (inv : Linked m pc k pushed woken stack queue) where
  -- The compare-exchange of `suspend`.
  pub push_move :
      (c : ℕ) {previous : ℕ}
      → 2 ≤ c
      → pc c ≡ looping previous
      → m.word ≡ previous
      → Linked
          (record m { word = c; links = update m.links c previous })
          (update pc c waiting)
          k
          (pushed ++ (c ∷ []))
          woken
          (c ∷ stack)
          queue
  push_move c {previous} high e w =
      let linked = link_move inv c previous (rw e refl) in
      record {
        stack_chain = (refl, high, rw (==-self c, ← w) linked.stack_chain);
        queue_chain = linked.queue_chain;
        parked = λ j. ground (arith, linked.parked j, linked.parked c);
        order = rw (inv.order, reverse_onto-append stack [] (c ∷ [])) (simp (append_assoc));
      }
