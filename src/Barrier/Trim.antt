-- ===== src/Barrier/Trim.antt =====
-- Cutting the window off the working set of the barrier.
use zab.Prelude.{
  ℕ, zero, suc, ◌≤◌, ◌≡◌, ◌≢◌, refl, List, [], ◌∷◌, ◌++◌, Option, some, arith, length, ap, sym,
  ≢→==, ==-self, update, NotIn, Distinct,
}
use zab.Memory.{Links}
use zab.Barrier.{address, get_next, iterate, cut, trim}
use zab.Barrier.Window.{Linked}

-- The nodes of a list of words.
abbrev pub addresses : List ℕ → List ℕ
addresses [] = []
addresses (w ∷ ws) = address w ∷ addresses ws

pub Linked-update :
    (links : Links) (a v p : ℕ) (ws : List ℕ)
    → NotIn a (addresses ws)
    → Linked links p ws
    → Linked (update links a v) p ws
Linked-update links a v p [] n c = c
Linked-update links a v p (w ∷ ws) n c =
    (c.0, c.1, rw (≢→== a (address w) n.0) (Linked-update links a v (get_next links w) ws n.1 c.2))

-- What cutting leaves: the front and the window as two lists.
pub record Cut (links : Links) (p : ℕ) (front win : List ℕ) (q : ℕ) (out : Option Links)
    : Type 0 where
  pub links' : Links
  pub result : out ≡ some links'
  pub front_linked : Linked links' p front
  pub window_linked : Linked links' q win
  pub others : (a : ℕ) → NotIn a (addresses front) → links' a ≡ links a

NotIn-addresses-append :
    (a : ℕ) (xs ys : List ℕ)
    → NotIn a (addresses (xs ++ ys))
    → NotIn a (addresses xs) × NotIn a (addresses ys)
NotIn-addresses-append a [] ys n = (tt, n)
NotIn-addresses-append a (x ∷ xs) ys n =
    let r = NotIn-addresses-append a xs ys n.1 in ((n.0, r.0), r.1)

cut_front :
    (links : Links) (x : ℕ) (xs : List ℕ) (q : ℕ) (qs : List ℕ) (fuel : ℕ)
    → length (x ∷ xs) ≤ fuel
    → Distinct (addresses ((x ∷ xs) ++ (q ∷ qs)))
    → Linked links x ((x ∷ xs) ++ (q ∷ qs))
    → Cut links x (x ∷ xs) (q ∷ qs) q (iterate fuel links (cut q links) x links)
unfolding iterate
cut_front links x xs q qs zero h d c = absurd (omega arith)
cut_front links x [] q qs (suc fuel) h d c = record {
  links' = update links (address x) 0;
  result = rw (≢→== x 0 (omega arith), c.2.0, ==-self q) refl;
  front_linked = (refl, c.1, rw (==-self (address x)) refl);
  window_linked = Linked-update links (address x) 0 q (q ∷ qs) d.0 (refl, c.2.1, c.2.2);
  others = λ a n. rw (≢→== (address x) a (λ e. n.0 (sym e))) refl;
}
cut_front links x (y ∷ ys) q qs (suc fuel) h d c =
    let r : Cut links y (y ∷ ys) (q ∷ qs) q (iterate fuel links (cut q links) y links) =
      cut_front links y ys q qs fuel (omega arith) d.1 (refl, c.2.1, c.2.2) in
    let apart : y ≢ q =
      λ e. ((NotIn-addresses-append (address y) ys (q ∷ qs) d.1.0).1).0 (ap address e) in
    let own : r.links' (address x) ≡ links (address x) =
      r.others (address x) (NotIn-addresses-append (address x) (y ∷ ys) (q ∷ qs) d.0).0 in
    record {
      links' = r.links';
      result = rw (≢→== x 0 (omega arith), c.2.0, ≢→== y q apart) r.result;
      front_linked = (refl, c.1, rw (own, c.2.0) r.front_linked);
      window_linked = r.window_linked;
      others = λ a n. r.others a n.1;
    }

-- The window `win`, whose head is the word `q`, behind the entries `front` of the working set: with
-- fuel for each entry of the front `trim` returns, and leaves the front in the working set and the
-- window on its own.
pub record Trimmed (links : Links) (front win : List ℕ) (q : ℕ) (out : Option (ℕ × Links))
    : Type 0 where
  pub working_set : ℕ
  pub links' : Links
  pub result : out ≡ some (working_set, links')
  pub front_linked : Linked links' working_set front
  pub window_linked : Linked links' q win

pub trim-Trimmed :
    (links : Links) (p : ℕ) (front : List ℕ) (q : ℕ) (qs : List ℕ) (fuel : ℕ)
    → length front ≤ fuel
    → Distinct (addresses (front ++ (q ∷ qs)))
    → Linked links p (front ++ (q ∷ qs))
    → Trimmed links front (q ∷ qs) q (trim fuel p links q)
unfolding trim
trim-Trimmed links p [] q qs fuel h d c = record {
  working_set = 0;
  links' = links;
  result = rw (c.0, ==-self q) refl;
  front_linked = refl;
  window_linked = (refl, c.1, c.2);
}
trim-Trimmed links p (x ∷ xs) q qs fuel h d c =
    let r : Cut links x (x ∷ xs) (q ∷ qs) q (iterate fuel links (cut q links) x links) =
      cut_front links x xs q qs fuel h d (refl, c.1, c.2) in
    let apart : x ≢ q =
      λ e. ((NotIn-addresses-append (address x) xs (q ∷ qs) d.0).1).0 (ap address e) in
    record {
      working_set = p;
      links' = r.links';
      result = rw (c.0, ≢→== x q apart, r.result) (ap (λ v. some (v, r.links')) c.0);
      front_linked = (c.0, r.front_linked.1, r.front_linked.2);
      window_linked = r.window_linked;
    }
