-- ===== src/Semaphore/Counting/Transfer.antt =====
-- `transfer` of the counting semaphore returns, and takes the waiter that arrived first.
use zab.Prelude.{
  ℕ, suc, ◌≤◌, ◌≡◌, ◌≢◌, ◌==◌, if◌then◌else◌, inl, inr, refl, sym, ◌∙◌, false, List, [], ◌∷◌, ◌++◌,
  arith, Option, some, none, count, Distinct-of_count, Apart-nil, reverse_onto, append-nil, ap, ap₂,
  subst, ≢→==, ==→≡, ==→≢, Bool-cases, length,
}
use zab.Memory.{
  Links, Chain, Chain-nil, Chain-cons, reverse_loop, reverse_loop-agree, Reversed,
  reverse_loop-Reversed,
}
use zab.Semaphore.Counting.{Sem, ends, transfer, set_transfer}

-- What `transfer` returns, as a list.
abbrev pub heads : ℕ → List ℕ
heads h = if h == 0 then [] else h ∷ []

pub heads-ne : (h : ℕ) → h ≢ 0 → heads h ≡ h ∷ []
heads-ne h n = rw (≢→== h 0 n) refl

-- What `transfer` does to the lists.
pub record Taken (m : Sem) (stack queue : List ℕ) (h : ℕ) (m' : Sem) : Type 0 where
  pub stack' : List ℕ
  pub queue' : List ℕ
  pub stack_chain : Chain m'.links 0 m'.word stack'
  pub queue_chain : Chain m'.links 0 m'.transfer queue'
  pub same : queue ++ reverse_onto stack [] ≡ heads h ++ (queue' ++ reverse_onto stack' [])
  pub active : m'.active ≡ m.active
  pub release_count : m'.release_count ≡ m.release_count
  pub nothing : h ≡ 0 → stack ≡ [] × queue ≡ []

ends-high : (a : ℕ) → 2 ≤ a → ends a ≡ false
ends-high a h = ground arith

reverse_onto-ne :
    (x : ℕ) (xs ys : List ℕ) → (h : ℕ) × (t : List ℕ) × (reverse_onto (x ∷ xs) ys ≡ h ∷ t)
reverse_onto-ne x [] ys = (x, ys, refl)
reverse_onto-ne x (y ∷ xs) ys = reverse_onto-ne y xs (x ∷ ys)

-- With enough fuel `transfer` returns, and takes the first waiter in the order of arrival.
pub record Transferred (m : Sem) (stack queue : List ℕ) : Type 0 where
  pub fuel : ℕ
  pub head : ℕ
  pub memory : Sem
  pub result : transfer fuel m ≡ some (head, memory)
  pub taken : Taken m stack queue head memory

module _ (m : Sem) (stack queue : List ℕ) (stack_chain : Chain m.links 0 m.word stack)
    (queue_chain : Chain m.links 0 m.transfer queue) (once : (c : ℕ) → count c stack ≤ 1) where
  transfer_queue : m.transfer ≢ 0 → Transferred m stack queue
  unfolding transfer
  transfer_queue n =
      let (rest, high, q, k) = Chain-cons m.links 0 m.transfer queue n queue_chain in
      record {
        fuel = 0;
        head = m.transfer;
        memory = record m { transfer = m.links m.transfer };
        result = rw (≢→== m.transfer 0 n) refl;
        taken = record {
          stack' = stack;
          queue' = rest;
          stack_chain = stack_chain;
          queue_chain = k;
          same =
              ap (λ l. l ++ reverse_onto stack []) q
              ∙ ap (λ l. l ++ (rest ++ reverse_onto stack [])) (sym (heads-ne m.transfer n));
          active = refl;
          release_count = refl;
          nothing = λ z. absurd (n z);
        };
      }

  transfer_nothing : m.transfer ≡ 0 → m.word ≡ 0 → Transferred m stack queue
  unfolding transfer
  transfer_nothing t w =
      let q : queue ≡ [] = (Chain-nil m.links 0 m.transfer queue (omega arith) queue_chain).0 in
      let e : stack ≡ [] = (Chain-nil m.links 0 m.word stack (omega arith) stack_chain).0 in
      record {
        fuel = 0;
        head = 0;
        memory = m;
        result = rw (t, w) refl;
        taken = record {
          stack' = stack;
          queue' = queue;
          stack_chain = stack_chain;
          queue_chain = queue_chain;
          same = refl;
          active = refl;
          release_count = refl;
          nothing = λ z. (e, q);
        };
      }

  transfer_stack : m.transfer ≡ 0 → m.word ≢ 0 → Transferred m stack queue
  unfolding transfer
  transfer_stack t n =
      let q : queue ≡ [] = (Chain-nil m.links 0 m.transfer queue (omega arith) queue_chain).0 in
      let (rest, high, e, k) = Chain-cons m.links 0 m.word stack n stack_chain in
      let r : Reversed m.links (m.word ∷ rest) []
          (reverse_loop ends (suc (length rest)) m.links m.word 0) =
        reverse_loop-Reversed ends 0 (omega arith) refl ends-high m.word rest [] m.links
          (suc (length rest)) m.word 0 (omega arith)
          (Distinct-of_count (m.word ∷ rest) (λ a. subst (λ l. count a l ≤ 1) e (once a)))
          (Apart-nil (m.word ∷ rest)) (refl, high, k) refl in
      let (h, t', o) = reverse_onto-ne m.word rest [] in
      let k' : Chain r.links' 0 r.head (h ∷ t') = subst (Chain r.links' 0 r.head) o r.chain in
      record {
        fuel = suc (length rest);
        head = r.head;
        memory = record m { word = 0; transfer = r.links' r.head; links = r.links' };
        result = rw (t, ≢→== m.word 0 n, r.result) refl;
        taken = record {
          stack' = [];
          queue' = t';
          stack_chain = refl;
          queue_chain = rw k'.0 k'.2;
          same =
              ap₂ (λ a b. a ++ reverse_onto b []) q e
              ∙ o
              ∙ ap (λ x. x ∷ t') (sym k'.0)
              ∙ sym (rw (heads-ne r.head (λ z. omega (arith, k'.0, k'.1)), append-nil) refl);
          active = refl;
          release_count = refl;
          nothing = λ z. absurd (omega (arith, k'.0, k'.1));
        };
      }

  -- With fuel for each waiter, `transfer` neither faults nor loops.
  pub transfer-returns : Transferred m stack queue
  transfer-returns = elim (Bool-cases (m.transfer == 0)) [
    | inl t ↦ elim (Bool-cases (m.word == 0)) [
      | inl w ↦ transfer_nothing (==→≡ _ _ t) (==→≡ _ _ w)
      | inr w ↦ transfer_stack (==→≡ _ _ t) (==→≢ _ _ w)
    ]
    | inr t ↦ transfer_queue (==→≢ _ _ t)
  ]

set_transfer-agree :
    (m : Sem) (a b : Option (ℕ × Links)) {o o' : ℕ × Sem}
    → ((p p' : ℕ × Links) → a ≡ some p → b ≡ some p' → p ≡ p')
    → set_transfer m a ≡ some o
    → set_transfer m b ≡ some o'
    → o ≡ o'
set_transfer-agree m none b same e e' = cc
set_transfer-agree m (some p) none same e e' = cc
set_transfer-agree m (some p) (some p') {o} {o'} same e e' = cc (same p p' refl refl)

-- Whatever the fuel, `transfer` has one result.
pub transfer-agree :
    (f g : ℕ) (m : Sem) {o o' : ℕ × Sem} → transfer f m ≡ some o → transfer g m ≡ some o' → o ≡ o'
unfolding transfer
transfer-agree f g m {o} {o'} e e' = elim (Bool-cases (m.transfer == 0)) [
  | inl t ↦ elim (Bool-cases (m.word == 0)) [
    | inl w ↦ cc
    | inr w ↦
        set_transfer-agree m (reverse_loop ends f m.links m.word 0)
          (reverse_loop ends g m.links m.word 0)
          (λ p p' a b. reverse_loop-agree ends f g m.links m.word 0 a b)
          (subst (λ x. x ≡ some o) (rw (t, w) refl) e)
          (subst (λ x. x ≡ some o') (rw (t, w) refl) e')
  ]
  | inr t ↦ cc
]
