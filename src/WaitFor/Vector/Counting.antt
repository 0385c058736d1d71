-- ===== src/WaitFor/Vector/Counting.antt =====
-- When `wait_for` on a vector goes on, and with which results.
use zab.Prelude.{
  one_if, one_if-le, ℕ, suc, ◌+◌, ◌^◌, ◌≤◌, ◌<◌, ◌≡◌, ◌==◌, refl, ap, subst, true, false,
  if◌then◌else◌, none, some, arith, total, total-update, total-zero, total-le, ◌&&◌, ==→≡,
  Bool-cases, inl, inr,
}
use zab.Latch.Laws.{After, count_down-After}
use zab.WaitFor.Vector.{
  Waiting, completed, arrive, goes_on, starts, completes, arrives, Reach, begun, later,
}

module _ {V : Type 0} (n : ℕ) (value : ℕ → V) where
  -- How many of the futures are complete.
  abbrev pub amount : Waiting V → ℕ
  amount w = total one_if n w.complete

  record IsCounted (w : Waiting V) : Type 0 where
    after : After (suc n) (amount w + one_if w.arrived) w.latch
    results : (i : ℕ) → w.result i ≡ (if w.complete i then some (value i) else none)
    at_most : w.started ≤ n

  module _ (small : suc n < 2 ^ 63) where
    completed-IsCounted :
        (w : Waiting V) (i : ℕ)
        → i < w.started
        → w.complete i ≡ false
        → IsCounted w
        → IsCounted (completed w i (value i))
    unfolding completed
    completed-IsCounted w i h open_yet c =
        let more : amount (completed w i (value i)) ≡ suc (amount w) = omega (
          arith,
          total-update one_if n w.complete i true (omega (arith, c.at_most)),
          ap one_if open_yet,
        ) in
        record {
          after =
              subst (λ k. After (suc n) k (completed w i (value i)).latch) (omega (arith, more))
                (count_down-After w.latch (suc n) (amount w + one_if w.arrived) 1 (omega arith)
                  small
                  (omega (
                    arith,
                    more,
                    total-le one_if n (completed w i (value i)).complete one_if-le,
                    one_if-le w.arrived,
                  ))
                  c.after);
          results = λ j. elim (Bool-cases (i == j)) [
            | inl same ↦ rw same (ap (λ k. some (value k)) (==→≡ i j same))
            | inr other ↦ rw other (c.results j)
          ];
          at_most = c.at_most;
        }

    arrive-IsCounted : (w : Waiting V) → w.arrived ≡ false → IsCounted w → IsCounted (arrive w)
    unfolding arrive
    arrive-IsCounted w e c = record {
      after =
          subst (λ k. After (suc n) k (arrive w).latch) (omega (arith, ap one_if e))
            (count_down-After w.latch (suc n) (amount w + one_if w.arrived) 1 (omega arith) small
              (omega (arith, total-le one_if n w.complete one_if-le, ap one_if e)) c.after);
      results = c.results;
      at_most = c.at_most;
    }

    Reach-IsCounted : (w : Waiting V) → Reach n value w → IsCounted w
    Reach-IsCounted w begun = record {
      after = ground (arith, total-zero one_if n (λ i. false) (λ i. refl));
      results = λ i. refl;
      at_most = omega arith;
    }
    Reach-IsCounted w (later {before} r (starts h)) =
        let c : IsCounted before = Reach-IsCounted before r in
        record { after = c.after; results = c.results; at_most = omega arith }
    Reach-IsCounted w (later {before} r (completes i h e)) =
        completed-IsCounted before i h e (Reach-IsCounted before r)
    Reach-IsCounted w (later {before} r (arrives h e)) =
        arrive-IsCounted before e (Reach-IsCounted before r)

    -- However fewer than 2^63 - 1 futures complete, inside their start or later and in any order, the
    -- coroutine that awaits them goes on exactly if all are complete and it has arrived, for which it was
    -- resumed once; and the result in each place is that of the future there, if that is complete.
    pub waits_for_all :
        (w : Waiting V) (i : ℕ)
        → Reach n value w
        → (goes_on w ≡ (amount w == n && w.arrived))
          × (w.latch.unpaused ≡ one_if (goes_on w))
          × (w.result i ≡ (if w.complete i then some (value i) else none))
    waits_for_all w i r =
        let c : IsCounted w = Reach-IsCounted w r in
        let most : amount w ≤ n = total-le one_if n w.complete one_if-le in
        elim (Bool-cases w.arrived) [
          | inl e ↦ rw e (
            ground (arith, c.after, most, ap one_if e),
            ground (arith, c.after, most, ap one_if e),
            c.results i,
          )
          | inr e ↦ rw e (
            ground (arith, c.after, most, ap one_if e),
            ground (arith, c.after, most, ap one_if e),
            c.results i,
          )
        ]
