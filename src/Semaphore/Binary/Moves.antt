-- ===== src/Semaphore/Binary/Moves.antt =====
-- Every move of the binary semaphore keeps the invariant, and treats its waiters as a queue.
use zab.Prelude.{
  ℕ, suc, ◌≤◌, ◌≡◌, inl, inr, refl, true, false, List, [], ◌∷◌, arith, update, Apart-nil, count,
  append-nil, append_assoc, reverse_onto-append, Distinct-of_count, length, reverse_onto, some, ◌∙◌,
  sym, ap, subst,
}
use zab.Memory.{
  Links, reverse_loop, reverse_loop-agree, Chain-nil, Chain-cons, Chain, Reversed,
  reverse_loop-Reversed,
}
use zab.Semaphore.Binary.{
  lock_flag, Sem, Pc, swapping, Effect, quiet, ends, Move, begin, try_lock_wins, try_lock_loses,
  ready, not_ready, load, take, retry_take, push, retry_push, hand_over, unlock, contended, swap,
  wake,
}
use zab.Semaphore.Binary.Invariant.{
  Inv, waits-le, arrivals, Kept, local_move, acquire_move, link_move, push_move, unlock_move,
  hand_over_move, swap_move,
}

ends-low : ends lock_flag ≡ true
ends-low = refl

ends-high : (a : ℕ) → 2 ≤ a → ends a ≡ false
ends-high a h = ground arith

-- What the exchange of a release finds.
pub record Found (m : Sem) (stack : List ℕ) (pc : ℕ → Pc) : Type 0 where
  pub fuel : ℕ
  pub head : ℕ
  pub links : Links
  pub newer : List ℕ
  pub result : reverse_loop ends fuel m.links m.word 0 ≡ some (head, links)
  pub order : reverse_onto stack [] ≡ head ∷ newer
  pub chain : Chain links 0 (links head) newer

reverse_onto-ne :
    (x : ℕ) (xs ys : List ℕ) → (h : ℕ) × (t : List ℕ) × (reverse_onto (x ∷ xs) ys ≡ h ∷ t)
reverse_onto-ne x [] ys = (x, ys, refl)
reverse_onto-ne x (y ∷ xs) ys = reverse_onto-ne y xs (x ∷ ys)

module _ {m : Sem} {pc : ℕ → Pc} {stack queue : List ℕ} (inv : Inv m pc stack queue) (c : ℕ) where
  open inv use {word_chain, queue_chain, parked, free, swap_ready}

  same :
      {m' : Sem} {pc' : ℕ → Pc} → Inv m' pc' stack queue → Kept m' pc' (arrivals stack queue) quiet
  same i = record { stack = stack; queue = queue; inv = i; follows = refl }

  -- The owner's exchange finds a stack, and the loop over it returns with fuel for each waiter.
  pub found : pc c ≡ swapping → Found m stack pc
  found e =
      let linked : Chain m.links lock_flag m.word stack = elim word_chain [
        | inl z ↦ ground (arith, free z.0 c)
        | inr k ↦ k
      ] in
      let (rest, high, q, k) =
        Chain-cons m.links lock_flag m.word stack (swap_ready c e).1 linked in
      let r : Reversed m.links (m.word ∷ rest) []
          (reverse_loop ends (suc (length rest)) m.links m.word 0) =
        reverse_loop-Reversed ends lock_flag (omega arith) ends-low ends-high m.word rest [] m.links
          (suc (length rest)) m.word 0 (omega arith)
          (Distinct-of_count (m.word ∷ rest)
            (λ a. omega (arith, parked a, waits-le (pc a), ap (count a) q)))
          (Apart-nil (m.word ∷ rest)) (refl, high, k) refl in
      let (h, t, o) = reverse_onto-ne m.word rest [] in
      let k' : Chain r.links' 0 r.head (h ∷ t) = subst (Chain r.links' 0 r.head) o r.chain in
      record {
        fuel = suc (length rest);
        head = r.head;
        links = r.links';
        newer = t;
        result = r.result;
        order = ap (λ l. reverse_onto l []) q ∙ o ∙ ap (λ x. x ∷ t) (sym k'.0);
        chain = rw k'.0 k'.2;
      }

  -- Every move keeps the invariant, for some new stack and queue, and its effect is the queue's.
  pub Move-Kept :
      {p p' : Pc} {e : Effect} {m' : Sem}
      → 2 ≤ c
      → Move c m p e m' p'
      → pc c ≡ p
      → Kept m' (wake e (update pc c p')) (arrivals stack queue) e
  Move-Kept h begin at = same (local_move inv c h at refl refl (λ e. cc))
  Move-Kept h (try_lock_wins z) at = same (acquire_move inv c h at refl z)
  Move-Kept h (try_lock_loses n) at = same (local_move inv c h at refl refl (λ e. cc))
  Move-Kept h (ready z) at = same (acquire_move inv c h at refl z)
  Move-Kept h (not_ready n) at = same (local_move inv c h at refl refl (λ e. cc))
  Move-Kept h load at = same (local_move inv c h at refl refl (λ e. cc))
  Move-Kept h (take z w) at = same (acquire_move inv c h at refl (w ∙ z))
  Move-Kept h (retry_take z) at = same (local_move inv c h at refl refl (λ e. cc))
  Move-Kept h (push n w) at = record {
    stack = c ∷ stack;
    queue = queue;
    inv = push_move inv c h at n w;
    follows =
        rw (reverse_onto-append stack [] (c ∷ []))
          (sym (append_assoc queue (reverse_onto stack []) (c ∷ [])));
  }
  Move-Kept h (retry_push {previous} n) at =
      same (local_move (link_move inv c h previous (rw at refl)) c h at refl refl (λ e. cc))
  Move-Kept h (hand_over t) at =
      let (rest, hi, q, k) = Chain-cons m.links 0 m.transfer queue t queue_chain in
      record {
        stack = stack;
        queue = rest;
        inv = hand_over_move inv c h rest at q hi k;
        follows = rw q;
      }
  Move-Kept h (unlock t w) at = same (unlock_move inv c h at t w)
  Move-Kept h (contended t w) at = same (
      local_move inv c h at refl refl
        (λ e. ((Chain-nil m.links 0 m.transfer queue (omega arith) queue_chain).0, w)))
  Move-Kept h (swap fuel {head} {links} e) at =
      let f : Found m stack pc = found at in
      let same_result : ◌≡◌ {A = ℕ × Links} (f.head, f.links) (head, links) =
        reverse_loop-agree ends f.fuel fuel m.links m.word 0 f.result e in
      let order : reverse_onto stack [] ≡ head ∷ f.newer =
        subst (λ (o : ℕ × Links). reverse_onto stack [] ≡ o.0 ∷ f.newer) same_result f.order in
      record {
        stack = [];
        queue = f.newer;
        inv =
            swap_move inv c h at (swap_ready c at).0 order
              (subst (λ (o : ℕ × Links). Chain o.1 0 (o.1 o.0) f.newer) same_result f.chain);
        follows = rw ((swap_ready c at).0, append-nil) order;
      }
