-- ===== src/Barrier/Window.antt =====
-- Which entries of the working set a phase of the barrier takes.
use zab.Prelude.{
  ℕ, zero, suc, ◌+◌, ◌-◌, ◌^◌, ◌≤◌, ◌<◌, ◌≡◌, ◌==◌, refl, Bool, true, false, ltb, List, [], ◌∷◌,
  some, if◌then◌else◌, arith, length, drop, get_or, ap, ◌∙◌, ≢→==, Bool-cases, inl, inr,
}
use zab.Memory.{Links, Chain}
use zab.Barrier.{Kind, kind, address, get_next, iterate, slide, window_pass}

-- The words `ws` are linked from the word `p` on, newest first.
abbrev pub Linked : Links → ℕ → List ℕ → Type 0
Linked links p ws = Chain (get_next links) 0 p ws

-- What a loop over the whole list computes.
unfoldable pub fold {ℓ} : {A : Type ℓ} → (Kind → ℕ → A → A × Bool) → List ℕ → A → A
fold f [] a = a
fold f (w ∷ ws) a = fold f ws (f (kind w) (address w) a).0

-- With fuel for each node and one more, a loop whose functor always goes on visits them all.
pub iterate-fold {ℓ} :
    {A : Type ℓ} (f : Kind → ℕ → A → A × Bool)
    → ((k : Kind) (a : ℕ) (s : A) → (f k a s).1 ≡ true)
    → (links : Links) (ws : List ℕ) (fuel p : ℕ) (s : A) → length ws ≤ fuel
    → Linked links p ws
    → iterate fuel links f p s ≡ some (fold f ws s)
unfolding iterate fold
iterate-fold f go links [] zero p s h c = rw c
iterate-fold f go links [] (suc fuel) p s h c = rw c
iterate-fold f go links (w ∷ ws) zero p s h c = absurd (omega arith)
iterate-fold f go links (w ∷ ws) (suc fuel) p s h c =
    rw (c.0, ≢→== w 0 (omega arith), go (kind w) (address w) s)
      (iterate-fold f go links ws fuel (get_next links w) (f (kind w) (address w) s).0 (omega arith)
        c.2)

pub Linked-get_or :
    (links : Links) (ws : List ℕ) (p i : ℕ)
    → i < length ws
    → Linked links p ws
    → (2 ≤ get_or ws i 0) × (get_next links (get_or ws i 0) ≡ get_or ws (suc i) 0)
Linked-get_or links [] p i h c = absurd (omega arith)
Linked-get_or links (w ∷ []) p zero h c = (c.1, c.2)
Linked-get_or links (w ∷ v ∷ ws) p zero h c = (c.1, c.2.0)
Linked-get_or links (w ∷ ws) p (suc i) h c =
    Linked-get_or links ws (get_next links w) i (omega arith) c.2

pub Linked-drop :
    (links : Links) (ws : List ℕ) (p i : ℕ)
    → i ≤ length ws
    → Linked links p ws
    → Linked links (get_or ws i 0) (drop i ws)
Linked-drop links [] p zero h c = refl
Linked-drop links [] p (suc i) h c = absurd (omega arith)
Linked-drop links (w ∷ ws) p zero h c = (refl, c.1, c.2)
Linked-drop links (w ∷ ws) p (suc i) h c =
    Linked-drop links ws (get_next links w) i (omega arith) c.2

Linked-head : (links : Links) (ws : List ℕ) (p : ℕ) → Linked links p ws → p ≡ get_or ws 0 0
Linked-head links [] p c = c
Linked-head links (w ∷ ws) p c = c.0

-- The head after `count` nodes of `ws`, in a window of `expected`.
abbrev pub head_after : ℕ → List ℕ → ℕ → ℕ
head_after expected ws count = if ltb count expected then 0 else get_or ws (count - expected) 0

module _ (links : Links) (ws : List ℕ) (p expected : ℕ) (linked : Linked links p ws)
    (pos : 0 < expected) (small : expected < 2 ^ 63) (few : length ws < 2 ^ 63) where
  slide-step :
      (k : Kind) (a count : ℕ)
      → count < length ws
      → (slide expected links p k a (count, head_after expected ws count)).0
        ≡ (suc count, head_after expected ws (suc count))
  slide-step k a count h = elim (Bool-cases (ltb count expected)) [
    | inl before ↦ elim (Bool-cases (suc count == expected)) [
      | inl first ↦ ground (
        arith,
        before,
        first,
        ap (λ i. get_or ws i 0) (first_index first),
        Linked-head links ws p linked,
      )
      | inr not_yet ↦ ground (arith, before, not_yet)
    ]
    | inr within ↦ ground (
      arith,
      within,
      Linked-get_or links ws p (count - expected) (omega arith) linked,
      ap (λ i. get_or ws i 0) (next_index within),
    )
  ]
    where
      first_index : (suc count == expected) ≡ true → ◌≡◌ {A = ℕ} (suc count - expected) 0
      first_index e = ground arith

      next_index : ltb count expected ≡ false → suc count - expected ≡ suc (count - expected)
      next_index e = ground arith

  slide-fold :
      (rest : List ℕ) (count : ℕ)
      → count + length rest ≤ length ws
      → fold (slide expected links p) rest (count, head_after expected ws count)
        ≡ (count + length rest, head_after expected ws (count + length rest))
  unfolding fold
  slide-fold [] count h = ap (λ n. (n, head_after expected ws n)) (omega arith)
  slide-fold (w ∷ rest) count h = rw (slide-step (kind w) (address w) count (omega arith)) (
      slide-fold rest (suc count) (omega arith)
      ∙ ap (λ n. (n, head_after expected ws n)) (omega arith))

  -- A round over a working set of `ws`, newest first, with `expected` between 1 and 2^63: with fuel
  -- for each entry it returns, and finds no window if there are fewer entries than expected, and
  -- otherwise the one of the `expected` oldest entries.
  pub window_pass_lem :
      (fuel : ℕ)
      → length ws ≤ fuel
      → window_pass fuel expected links p ≡ some (head_after expected ws (length ws))
  unfolding window_pass
  window_pass_lem fuel h =
      rw
        (
          iterate-fold (slide expected links p) (λ k a s. refl) links ws fuel p (0, 0) h linked,
          window_pass,
          start,
        )
        refl
    where
      start :
          fold (slide expected links p) ws (0, 0) ≡ (length ws, head_after expected ws (length ws))
      start =
          ap (λ x. fold (slide expected links p) ws (0, x)) (ground arith)
          ∙ slide-fold ws 0 (omega arith)
          ∙ ap (λ n. (n, head_after expected ws n)) (omega arith)
