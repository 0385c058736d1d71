-- ===== src/Memory.antt =====
-- Intrusive singly linked lists of waiters: the `next_waiting_` and `next_` fields of the nodes that
-- async_semaphore.hpp, pause_token.hpp and async_barrier.hpp link through atomic words. A node's
-- address is a number, at least 2 in those that share a word with a flag.
use zab.Prelude.{
  ℕ, zero, suc, ◌+◌, ◌≤◌, ◌<◌, ◌≡◌, ◌≢◌, refl, List, [], ◌∷◌, arith, update, NotIn, Distinct, Apart,
  length, reverse_onto, Option, none, some, Bool, true, false, ltb, if◌then◌else◌, ≢→==, ==-self,
  ap₂, sym, ◌∙◌, ltb-false, Apart-cons,
}

-- The link field of every node, by address.
abbrev pub Links : Type 0
Links = ℕ → ℕ

-- The nodes `xs` are linked from the word `p` on, in this order, and the last one holds `stop`.
abbrev pub Chain : Links → ℕ → ℕ → List ℕ → Type 0
Chain next stop p [] = p ≡ stop
Chain next stop p (x ∷ xs) = (p ≡ x) × (2 ≤ x) × Chain next stop (next x) xs

pub Chain-update :
    (next : Links) (stop p a v : ℕ) (xs : List ℕ)
    → NotIn a xs
    → Chain next stop p xs
    → Chain (update next a v) stop p xs
Chain-update next stop p a v [] d c = c
Chain-update next stop p a v (x ∷ xs) d c =
    (c.0, c.1, rw (≢→== a x d.0) (Chain-update next stop (next x) a v xs d.1 c.2))

-- From a null or a flag word on there are no nodes.
pub Chain-nil :
    (next : Links) (stop p : ℕ) (xs : List ℕ)
    → p < 2
    → Chain next stop p xs
    → (xs ≡ []) × (p ≡ stop)
Chain-nil next stop p [] h c = (refl, c)
Chain-nil next stop p (x ∷ xs) h c = absurd (omega arith)

-- Any word but the end is the address of the first node.
pub Chain-cons :
    (next : Links) (stop p : ℕ) (xs : List ℕ)
    → p ≢ stop
    → Chain next stop p xs
    → (rest : List ℕ) × (2 ≤ p) × (xs ≡ p ∷ rest) × Chain next stop (next p) rest
Chain-cons next stop p [] h c = absurd (h c)
Chain-cons next stop p (x ∷ xs) h c = (xs, omega arith, rw c.0, rw c.0 c.2)

-- A chain that ends in a null or a flag word determines its list.
pub Chain-unique :
    (next : Links) (stop p : ℕ) (xs ys : List ℕ)
    → stop < 2
    → Chain next stop p xs
    → Chain next stop p ys
    → xs ≡ ys
Chain-unique next stop p [] [] h c d = refl
Chain-unique next stop p [] (y ∷ ys) h c d = absurd (omega arith)
Chain-unique next stop p (x ∷ xs) [] h c d = absurd (omega arith)
Chain-unique next stop p (x ∷ xs) (y ∷ ys) h c d =
    let e : x ≡ y = omega arith in
    ap₂ ◌∷◌ e (Chain-unique next stop (next x) xs ys h c.2 (rw e d.2))

-- `do { temp = next->next; next->next = head; head = next; next = temp; } while (…)`, the loop that
-- turns a stack of waiters round. `ends` is the negated test, and `none` a dereference of a null or
-- flag word, or fuel that ran out. The result is the new head and the links.
unfoldable pub reverse_loop : (ℕ → Bool) → ℕ → Links → ℕ → ℕ → Option (ℕ × Links)
reverse_loop ends zero links next head = none
reverse_loop ends (suc fuel) links next head =
    let temp = links next in
    let links' = update links next head in
    let rest = reverse_loop ends fuel links' temp next in
    if ltb next 2 then none else if ends temp then some (next, links') else rest

-- More fuel changes no result.
pub reverse_loop_more :
    (ends : ℕ → Bool) (fuel more : ℕ) (links : Links) (next head : ℕ) {out : ℕ × Links}
    → fuel ≤ more
    → reverse_loop ends fuel links next head ≡ some out
    → reverse_loop ends more links next head ≡ some out
unfolding reverse_loop
reverse_loop_more ends zero more links next head h e = cc
reverse_loop_more ends (suc fuel) zero links next head h e = absurd (omega arith)
reverse_loop_more ends (suc fuel) (suc more) links next head {out} h e = ground (
  arith,
  reverse_loop_more ends fuel more (update links next head) (links next) next {out = out}
      (omega arith),
)

-- Whatever the fuel, there is one result.
pub reverse_loop-agree :
    (ends : ℕ → Bool) (f g : ℕ) (links : Links) (next head : ℕ) {o o' : ℕ × Links}
    → reverse_loop ends f links next head ≡ some o
    → reverse_loop ends g links next head ≡ some o'
    → o ≡ o'
reverse_loop-agree ends f g links next head {o} {o'} e e' = cc (
  reverse_loop_more ends f (f + g) links next head {out = o} (omega arith) e,
  reverse_loop_more ends g (f + g) links next head {out = o'} (omega arith) e',
)

-- What the loop leaves: the nodes turned round in front of `ys`, all other links as they were.
pub record Reversed (links : Links) (xs ys : List ℕ) (out : Option (ℕ × Links)) : Type 0 where
  pub head : ℕ
  pub links' : Links
  pub result : out ≡ some (head, links')
  pub chain : Chain links' 0 head (reverse_onto xs ys)
  pub others : (a : ℕ) → NotIn a xs → links' a ≡ links a

module _ (ends : ℕ → Bool) (stop : ℕ) (low : stop < 2) (at_stop : ends stop ≡ true)
    (inside : (a : ℕ) → 2 ≤ a → ends a ≡ false) where
  reverse_loop_from :
      (x : ℕ) (xs ys : List ℕ) (links : Links) (fuel head : ℕ)
      → length xs < fuel
      → Distinct (x ∷ xs)
      → Apart (x ∷ xs) ys
      → 2 ≤ x
      → Chain links stop (links x) xs
      → Chain links 0 head ys
      → Reversed links (x ∷ xs) ys (reverse_loop ends fuel links x head)
  unfolding reverse_loop
  reverse_loop_from x xs ys links zero head f d a b c k = absurd (omega arith)
  reverse_loop_from x [] ys links (suc fuel) head f d a b c k = record {
    head = x;
    links' = update links x head;
    result = rw (ltb-false x b, c, at_stop);
    chain = (refl, b, rw (==-self x) (Chain-update links 0 head x head ys a.0 k));
    others = λ j n. rw (≢→== x j (λ e. n.0 (sym e)));
  }
  reverse_loop_from x (y ∷ xs) ys links (suc fuel) head f d a b c k =
      let turned : Links = update links x head in
      let skip : turned y ≡ links y = rw (≢→== x y d.0.0) in
      let r : Reversed turned (y ∷ xs) (x ∷ ys) (reverse_loop ends fuel turned y x) =
        reverse_loop_from y xs (x ∷ ys) turned fuel x (omega arith) d.1
          (Apart-cons x (y ∷ xs) ys d.0 a.1) c.1
          (rw skip (Chain-update links stop (links y) x head xs d.0.1 c.2))
          (refl, b, rw (==-self x) (Chain-update links 0 head x head ys a.0 k)) in
      record {
        head = r.head;
        links' = r.links';
        result = rw (ltb-false x b, c.0, inside y c.1) r.result;
        chain = r.chain;
        others = λ j n. r.others j n.1 ∙ rw (≢→== x j (λ e. n.0 (sym e)));
      }

  -- With fuel for each node the loop returns, and has turned the chain round.
  pub reverse_loop-Reversed :
      (x : ℕ) (xs ys : List ℕ) (links : Links) (fuel p head : ℕ)
      → length xs < fuel
      → Distinct (x ∷ xs)
      → Apart (x ∷ xs) ys
      → Chain links stop p (x ∷ xs)
      → Chain links 0 head ys
      → Reversed links (x ∷ xs) ys (reverse_loop ends fuel links p head)
  reverse_loop-Reversed x xs ys links fuel p head f d a c k =
      rw c.0 (reverse_loop_from x xs ys links fuel head f d a c.1 c.2 k)
