-- ===== src/EventLoop/Fifo.antt =====
-- What every sequence of steps of the queue of an event loop keeps.
use zab.Prelude.{
  ℕ, ◌+◌, ◌<◌, ◌≡◌, refl, sym, ap, ◌∙◌, List, [], ◌∷◌, ◌++◌, append-nil, append_assoc, length,
  length-append, arith, ◌⊎◌, inl, inr, Bool-cases,
}
use zab.EventLoop.{
  Loop, swapping, running, reading, returned, init, dispatch_user_event, wake, swap, next,
  read_done, read_failed, Step, dispatch, notify, request_stop, interrupt, take_over, proceed,
  complete, fail, Steps, stay, go,
}

-- The invariant of the queue.
pub record Kept (l : Loop) : Type 0 where
  pub order : l.dispatched ≡ l.resumed ++ (l.read ++ l.write)
  pub measured : l.size ≡ length l.write
  pub clear : (l.runner ≡ running) ⊎ (l.read ≡ [])
  pub announced :
      (length l.write ≡ 0)
      ⊎ ((0 < l.waking + l.eventfd) ⊎ ((l.runner ≡ swapping) ⊎ (l.runner ≡ returned)))

pub Kept-dispatch : (l : Loop) (event : ℕ) → Kept l → Kept (dispatch_user_event l event)
unfolding dispatch_user_event
Kept-dispatch l event k = record {
  order =
      ap (λ d. d ++ (event ∷ [])) k.order
      ∙ append_assoc l.resumed (l.read ++ l.write) (event ∷ [])
      ∙ ap (λ d. l.resumed ++ d) (append_assoc l.read l.write (event ∷ []));
  measured = omega (arith, k.measured, length-append l.write (event ∷ []));
  clear = k.clear;
  announced = inr (elim k.announced [
    | inl empty ↦ inl (ground (arith, empty, length-append l.write (event ∷ [])))
    | inr (inl h) ↦ inl (ground (arith, h))
    | inr (inr r) ↦ inr r
  ]);
}

read-clear : (l : Loop) → Kept l → (l.runner ≡ running → ⊥) → l.read ≡ []
read-clear l k other = elim k.clear [ inl r ↦ absurd (other r) | inr e ↦ e ]

pub List-cases : (xs : List ℕ) → (xs ≡ []) ⊎ ((x : ℕ) × (rest : List ℕ) × (xs ≡ x ∷ rest))
List-cases [] = inl refl
List-cases (x ∷ rest) = inr (x, rest, refl)

Kept-next : (l : Loop) → l.runner ≡ running → Kept l → Kept (next l)
unfolding next
Kept-next l runs k = elim (List-cases l.read) [
  | inl e ↦
      rw (e, next)
        (record {
          order = k.order ∙ rw e refl;
          measured = k.measured;
          clear = inr refl;
          announced = elim k.announced [
            | inl h ↦ inl h
            | inr (inl h) ↦ inr (inl h)
            | inr (inr (inl h)) ↦ cc
            | inr (inr (inr h)) ↦ cc
          ];
        })
  | inr (x, xs, e) ↦
      rw (e, next)
        (record {
          order = k.order ∙ rw e (sym (append_assoc l.resumed (x ∷ []) (xs ++ l.write)));
          measured = k.measured;
          clear = inl runs;
          announced = k.announced;
        })
]

Kept-swap : (l : Loop) → l.runner ≡ swapping → Kept l → Kept (swap l)
unfolding swap
Kept-swap l r k =
    let none_left : l.read ≡ [] = read-clear l k (λ e. cc) in
    record {
      order = k.order ∙ rw (none_left, append-nil l.write) refl;
      measured = rw none_left refl;
      clear = inl refl;
      announced = inl (rw none_left refl);
    }

Kept-read_done : (l : Loop) → l.runner ≡ reading → Kept l → Kept (read_done l)
unfolding read_done
Kept-read_done l r k = record {
  order = k.order;
  measured = k.measured;
  clear = inr (read-clear l k (λ e. cc));
  announced =
      inr
        (inr (elim (Bool-cases l.stopping) [ inl e ↦ inr (rw e refl) | inr e ↦ inl (rw e refl) ]));
}

-- Every step keeps the invariant.
pub Step-Kept : {l m : Loop} → Step l m → Kept l → Kept m
unfolding wake read_failed interrupt
Step-Kept (dispatch {l} event) k = Kept-dispatch l event k
Step-Kept (notify {l} h) k = record {
  order = k.order;
  measured = k.measured;
  clear = k.clear;
  announced = inr (inl (omega arith));
}
Step-Kept (request_stop {l} h) k = record {
  order = k.order;
  measured = k.measured;
  clear = k.clear;
  announced = inr (inl (omega arith));
}
Step-Kept (take_over {l} r) k = Kept-swap l r k
Step-Kept (proceed {l} r) k = Kept-next l r k
Step-Kept (complete {l} r h) k = Kept-read_done l r k
Step-Kept (fail {l} r) k = record {
  order = k.order;
  measured = k.measured;
  clear = inr (read-clear l k (λ e. cc));
  announced = inr (inr (inr refl));
}

pub init-Kept : Kept init
init-Kept = record { order = refl; measured = refl; clear = inr refl; announced = inl refl }

pub Steps-Kept : {l m : Loop} → Steps l m → Kept l → Kept m
Steps-Kept stay k = k
Steps-Kept (go s t) k = Step-Kept t (Steps-Kept s k)

-- In every state that dispatches from any threads, their wakes and the coroutine can reach, the events
-- resumed, those of the batch and those of the write queue are, in this order, exactly the events
-- dispatched, and `size_` counts those of the write queue.
pub resumed_in_order :
    (l : Loop)
    → Steps init l
    → (l.dispatched ≡ l.resumed ++ (l.read ++ l.write)) × (l.size ≡ length l.write)
resumed_in_order l s = let k = Steps-Kept s init-Kept in (k.order, k.measured)
