-- ===== src/Semaphore/Binary/Invariant.antt =====
-- What holds of the binary semaphore between two moves, and that every move keeps it.
use zab.Prelude.{
  ℕ, ◌+◌, ◌≤◌, ◌≡◌, ◌≢◌, ◌⊎◌, inl, inr, refl, true, false, List, [], ◌∷◌, ◌++◌, arith, update,
  count, count-reverse_onto, NotIn-of_count, reverse_onto, ap, subst, ==-self,
}
use zab.Memory.{Links, Chain-nil, Chain, Chain-update}
use zab.Semaphore.Binary.{
  lock_flag, Sem, Pc, idle, looping, waiting, owner, swapping, Effect, quiet, joins, wakes, owns,
  waits,
}

-- `stack` are the waiters pushed on the word, newest first; `queue` those already turned round.
pub record Inv (m : Sem) (pc : ℕ → Pc) (stack queue : List ℕ) : Type 0 where
  pub word_chain :
      ((m.word ≡ 0) × (stack ≡ []) × (queue ≡ [])) ⊎ Chain m.links lock_flag m.word stack
  pub queue_chain : Chain m.links 0 m.transfer queue
  pub parked : (c : ℕ) → count c stack + count c queue ≡ waits (pc c)
  pub free : m.word ≡ 0 → (c : ℕ) → owns (pc c) ≡ false
  pub held : m.word ≢ 0 → (c : ℕ) × (owns (pc c) ≡ true)
  pub unique : (i j : ℕ) → owns (pc i) ≡ true → owns (pc j) ≡ true → i ≡ j
  pub swap_ready : (c : ℕ) → pc c ≡ swapping → (queue ≡ []) × (m.word ≢ lock_flag)

pub waits-le : (p : Pc) → waits p ≤ 1
waits-le p = ground arith

-- The order of arrival: who is turned round already comes first.
abbrev pub arrivals : List ℕ → List ℕ → List ℕ
arrivals stack queue = queue ++ reverse_onto stack []

-- What an effect does to the order of arrival.
abbrev pub Follows : Effect → List ℕ → List ℕ → Type 0
Follows quiet before after = after ≡ before
Follows (joins c) before after = after ≡ before ++ (c ∷ [])
Follows (wakes h) before after = before ≡ h ∷ after

pub record Kept (m : Sem) (pc : ℕ → Pc) (before : List ℕ) (e : Effect) : Type 0 where
  pub stack : List ℕ
  pub queue : List ℕ
  pub inv : Inv m pc stack queue
  pub follows : Follows e before (arrivals stack queue)

module _ {m : Sem} {pc : ℕ → Pc} {stack queue : List ℕ} (inv : Inv m pc stack queue) (c : ℕ)
    (high : 2 ≤ c) where
  open inv use {word_chain, queue_chain, parked, free, held, unique, swap_ready}

  -- A move that changes neither the memory nor who owns or waits.
  pub local_move :
      {p p' : Pc}
      → pc c ≡ p
      → owns p' ≡ owns p
      → waits p' ≡ waits p
      → (p' ≡ swapping → (queue ≡ []) × (m.word ≢ lock_flag))
      → Inv m (update pc c p') stack queue
  local_move {p} {p'} e o w s = record {
    word_chain = word_chain;
    queue_chain = queue_chain;
    parked = λ j. ground (arith, parked j, parked c);
    free = λ z j. ground (arith, free z j, free z c);
    held = λ z. ((held z).0, ground (arith, (held z).1));
    unique = λ i j. ground (arith, unique i j);
    swap_ready = λ j q. ground (arith, swap_ready j);
  }

  -- The compare-exchange from 0 to the flag: `c` becomes the owner.
  pub acquire_move :
      {p : Pc}
      → pc c ≡ p
      → waits p ≡ 0
      → m.word ≡ 0
      → Inv (record m { word = lock_flag }) (update pc c owner) stack queue
  acquire_move {p} e w z = record {
    word_chain = elim word_chain [
      | inl f ↦ inr (rw f.1 refl)
      | inr k ↦ absurd (omega (arith, (Chain-nil m.links lock_flag m.word stack (omega arith) k).1))
    ];
    queue_chain = queue_chain;
    parked = λ j. ground (arith, parked j, parked c);
    free = λ q j. absurd (omega arith);
    held = λ q. (c, ground arith);
    unique = λ i j. ground (arith, free z i, free z j);
    swap_ready = λ j q. ground (arith, free z j);
  }

  -- The store to the waiter's own link, before it is on the stack.
  pub link_move :
      (previous : ℕ)
      → waits (pc c) ≡ 0
      → Inv (record m { links = update m.links c previous }) pc stack queue
  link_move previous w = record {
    word_chain = elim word_chain [
      | inl z ↦ inl z
      | inr k ↦ inr (
          Chain-update m.links lock_flag m.word c previous stack
            (NotIn-of_count c stack (omega (arith, parked c))) k)
    ];
    queue_chain =
        Chain-update m.links 0 m.transfer c previous queue
          (NotIn-of_count c queue (omega (arith, parked c))) queue_chain;
    parked = parked;
    free = free;
    held = held;
    unique = unique;
    swap_ready = swap_ready;
  }

  pub push_move :
      {previous : ℕ}
      → pc c ≡ looping previous
      → previous ≢ 0
      → m.word ≡ previous
      → Inv
          (record m { word = c; links = update m.links c previous })
          (update pc c waiting)
          (c ∷ stack)
          queue
  push_move {previous} e n w = record {
    word_chain = elim linked.word_chain [
      | inl z ↦ absurd (n (omega (arith, z.0)))
      | inr k ↦ inr (refl, high, rw (==-self c, ← w) k)
    ];
    queue_chain = linked.queue_chain;
    parked = λ j. ground (arith, parked j, parked c);
    free = λ z j. absurd (omega arith);
    held = λ z. let (i, o) = held (λ z. n (omega arith)) in (i, ground arith);
    unique = λ i j. ground (arith, unique i j);
    swap_ready = λ j q. ground (arith, swap_ready j);
  }
    where
      linked : Inv (record m { links = update m.links c previous }) pc stack queue
      linked = link_move previous (rw e)

  pub unlock_move :
      pc c ≡ owner
      → m.transfer ≡ 0
      → m.word ≡ lock_flag
      → Inv (record m { word = 0 }) (update pc c idle) stack queue
  unlock_move e t w = record {
    word_chain =
        inl (refl, no_stack, (Chain-nil m.links 0 m.transfer queue (omega arith) queue_chain).0);
    queue_chain = queue_chain;
    parked = λ j. ground (arith, parked j, parked c);
    free = λ z j. ground (arith, unique c j);
    held = λ z. absurd (omega arith);
    unique = λ i j. ground (arith, unique i j);
    swap_ready = λ j q. ground (arith, swap_ready j, unique c j);
  }
    where
      no_stack : stack ≡ []
      no_stack = elim word_chain [
        | inl z ↦ z.1
        | inr k ↦ (Chain-nil m.links lock_flag m.word stack (omega arith) k).0
      ]

  -- A release with a queue: the oldest waiter becomes the owner.
  pub hand_over_move :
      (rest : List ℕ)
      → pc c ≡ owner
      → queue ≡ m.transfer ∷ rest
      → 2 ≤ m.transfer
      → Chain m.links 0 (m.links m.transfer) rest
      → Inv
          (record m { transfer = m.links m.transfer })
          (update (update pc c idle) m.transfer owner)
          stack
          rest
  hand_over_move rest e q h k = record {
    word_chain = elim word_chain [ inl z ↦ ground arith | inr l ↦ inr l ];
    queue_chain = k;
    parked = λ j. ground (arith, was j, was c, was m.transfer, waits-le (pc m.transfer));
    free = λ z j. ground (arith, free z c);
    held = λ z. (m.transfer, ground arith);
    unique = λ i j. ground (arith, unique i j, unique c i, unique c j);
    swap_ready = λ j s. ground (arith, swap_ready j, unique c j);
  }
    where
      was : (j : ℕ) → count j stack + count j (m.transfer ∷ rest) ≡ waits (pc j)
      was j = subst (λ l. count j stack + count j l ≡ waits (pc j)) q (parked j)

  -- A release without one: the stack is turned round, and the oldest waiter becomes the owner.
  pub swap_move :
      {head : ℕ} {links : Links} {newer : List ℕ}
      → pc c ≡ swapping
      → queue ≡ []
      → reverse_onto stack [] ≡ head ∷ newer
      → Chain links 0 (links head) newer
      → Inv
          (record { word = lock_flag; transfer = links head; links = links })
          (update (update pc c idle) head owner)
          []
          newer
  swap_move {head} {links} {newer} e q r k = record {
    word_chain = inr refl;
    queue_chain = k;
    parked = λ j. ground (arith, was j, was c, was head, waits-le (pc head));
    free = λ z j. absurd (omega arith);
    held = λ z. (head, ground arith);
    unique = λ i j. ground (arith, unique i j, unique c i, unique c j);
    swap_ready = λ j s. ground (arith, unique c j);
  }
    where
      was : (j : ℕ) → count j (head ∷ newer) ≡ waits (pc j)
      was j =
          subst (λ l. count j l ≡ waits (pc j)) r
            (omega (arith, count-reverse_onto j stack [], parked j, ap (count j) q))
