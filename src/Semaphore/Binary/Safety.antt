-- ===== src/Semaphore/Binary/Safety.antt =====
-- What holds in every state that the coroutines can reach: mutual exclusion, first in first out, and
-- no waiter is forgotten.
use zab.Prelude.{
  ℕ, ◌≡◌, ◌≢◌, inl, inr, refl, true, List, [], arith, Option, none, some, Bool-cases, ◌==◌, ==→≡,
  ==→≢,
}
use mathlib.Core.Bool.{false≢true}
use zab.Memory.{Chain-nil}
use zab.Semaphore.Binary.{
  lock_flag, Sem, Pc, idle, trying, loading, looping, waiting, owner, swapping, Effect, Move,
  hand_over, unlock, contended, swap, System, Step, pick, init, Reach, here, later, owns,
}
use zab.Semaphore.Binary.Invariant.{Inv, arrivals, Kept}
use zab.Semaphore.Binary.Moves.{Found, found, Move-Kept}

-- The lists that the invariant speaks of.
pub record Held (s : System) : Type 0 where
  pub stack : List ℕ
  pub queue : List ℕ
  pub inv : Inv s.sem s.pc stack queue

init-Held : (start : Option ℕ) → Held (init start)
unfolding init
init-Held none = record {
  stack = [];
  queue = [];
  inv = record {
    word_chain = inl (refl, refl, refl);
    queue_chain = refl;
    parked = λ c. omega arith;
    free = λ z c. refl;
    held = λ n. absurd (n refl);
    unique = λ i j p q. cc;
    swap_ready = λ c e. cc;
  };
}
init-Held (some o) = record {
  stack = [];
  queue = [];
  inv = record {
    word_chain = inr refl;
    queue_chain = refl;
    parked = λ c. ground arith;
    free = λ z c. absurd (omega arith);
    held = λ n. (o, ground arith);
    unique = λ i j p q. ground arith;
    swap_ready = λ c e. ground arith;
  };
}

-- One step from a state that meets the invariant leads to one that meets it, and the waiters in
-- order of arrival are those before, with the coroutine that suspends added at the end or the one
-- that is resumed taken from the front.
pub Step-Kept :
    {s : System} {e : Effect} {t : System} {stack queue : List ℕ}
    → Inv s.sem s.pc stack queue
    → Step s e t
    → Kept t.sem t.pc (arrivals stack queue) e
Step-Kept inv (pick c h mv) = Move-Kept inv c h mv refl

pub Reach-Held : (start : Option ℕ) {s : System} → Reach (init start) s → Held s
Reach-Held start here = init-Held start
Reach-Held start (later r st) =
    let h = Reach-Held start r in
    let k = Step-Kept h.inv st in record { stack = k.stack; queue = k.queue; inv = k.inv }

-- In every state that coroutines reach from a new semaphore, free or locked, in any interleaving, at
-- most one of them has acquired it and not finished its release.
pub mutual_exclusion :
    (start : Option ℕ) {s : System}
    → Reach (init start) s
    → (i j : ℕ) → owns (s.pc i) ≡ true
    → owns (s.pc j) ≡ true
    → i ≡ j
mutual_exclusion start r i j = (Reach-Held start r).inv.unique i j

module _ {m : Sem} {pc : ℕ → Pc} {stack queue : List ℕ} (inv : Inv m pc stack queue) where
  open inv use {word_chain, queue_chain, parked, held}

  waiting_held : (c : ℕ) → pc c ≡ waiting → m.word ≢ 0
  waiting_held c w z = elim word_chain [
    | inl f ↦ ground (arith, parked c, f)
    | inr k ↦ absurd (omega (arith, (Chain-nil m.links lock_flag m.word stack (omega arith) k).1))
  ]

  -- The move of a release from where its owner stands.
  abbrev Release : ℕ → Pc → Type 0
  Release o p = (e : Effect) × (m' : Sem) × (p' : Pc) × Move o m p e m' p'

  Release-move : (o : ℕ) (p : Pc) → pc o ≡ p → owns p ≡ true → Release o p
  Release-move o owner at own = elim (Bool-cases (m.transfer == 0)) [
    | inl z ↦ elim (Bool-cases (m.word == lock_flag)) [
      | inl w ↦ (_, _, _, unlock (==→≡ _ _ z) (==→≡ _ _ w))
      | inr w ↦ (_, _, _, contended (==→≡ _ _ z) (==→≢ _ _ w))
    ]
    | inr n ↦ (_, _, _, hand_over (==→≢ _ _ n))
  ]
  Release-move o swapping at own =
      let f : Found m stack pc = found inv o at in (_, _, _, swap f.fuel f.result)
  Release-move o idle at own = absurd (false≢true own)
  Release-move o trying at own = absurd (false≢true own)
  Release-move o loading at own = absurd (false≢true own)
  Release-move o (looping p) at own = absurd (false≢true own)
  Release-move o waiting at own = absurd (false≢true own)

-- In every reachable state, if some coroutine is suspended then some coroutine owns the semaphore;
-- and whichever owns it has a move, so the release neither faults on a null waiter nor blocks.
pub no_lost_waiter :
    (start : Option ℕ) {s : System}
    → Reach (init start) s
    → ((c : ℕ) → s.pc c ≡ waiting → (o : ℕ) × (owns (s.pc o) ≡ true))
      × ((o : ℕ)
          → owns (s.pc o) ≡ true
          → (e : Effect) × (m : Sem) × (p : Pc) × Move o s.sem (s.pc o) e m p)
no_lost_waiter start {s} r =
    let inv = (Reach-Held start r).inv in
    (λ c w. inv.held (waiting_held inv c w), λ o own. Release-move inv o (s.pc o) refl own)
