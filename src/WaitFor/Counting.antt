-- ===== src/WaitFor/Counting.antt =====
-- When `wait_for` resumes.
use zab.Prelude.{
  one_if, one_if-le, ℕ, suc, ◌+◌, ◌^◌, ◌≤◌, ◌<◌, ◌≡◌, ◌==◌, refl, ap, true, false, if◌then◌else◌,
  arith, total, total-update, total-zero, total-le, ◌&&◌, Bool-cases, inl, inr,
}
use zab.WaitFor.{Pack, completed, suspend, inline_start, call, finish, Reach, begun, later}

module _ (n : ℕ) where
  -- How many of the futures are complete.
  abbrev pub amount : Pack → ℕ
  amount p = total one_if n p.complete

  -- What is left to count, and that the coroutine is resumed once nothing is.
  pub record IsCounted (p : Pack) : Type 0 where
    pub counts : p.counter + (amount p + one_if p.suspended) ≡ suc n
    pub once : p.resumed ≡ (if p.counter == 0 then 1 else 0)
    pub at_most : p.started ≤ n

  module _ (small : suc n < 2 ^ 64) where
    completed-IsCounted :
        (p : Pack) (i : ℕ)
        → i < p.started
        → p.complete i ≡ false
        → IsCounted p
        → IsCounted (completed p i)
    unfolding completed
    completed-IsCounted p i h open_yet c =
        let more : amount (completed p i) ≡ suc (amount p) = omega (
          arith,
          total-update one_if n p.complete i true (omega (arith, c.at_most)),
          ap one_if open_yet,
        ) in
        let positive : 1 ≤ p.counter = omega (
          arith,
          c.counts,
          more,
          total-le one_if n (completed p i).complete one_if-le,
          one_if-le p.suspended,
        ) in
        record {
          counts = omega (arith, c.counts, more);
          once = ground (arith, c.once, c.counts, positive);
          at_most = c.at_most;
        }

    suspend-IsCounted : (p : Pack) → p.suspended ≡ false → IsCounted p → IsCounted (suspend p)
    unfolding suspend
    suspend-IsCounted p e c =
        let positive : 1 ≤ p.counter =
          omega (arith, c.counts, total-le one_if n p.complete one_if-le, ap one_if e) in
        record {
          counts = omega (arith, c.counts, ap one_if e);
          once = ground (arith, c.once, c.counts, positive);
          at_most = c.at_most;
        }

    Reach-IsCounted : (p : Pack) → Reach n p → IsCounted p
    Reach-IsCounted p begun = record {
      counts = omega (arith, total-zero one_if n (λ i. false) (λ i. refl));
      once = ground arith;
      at_most = omega arith;
    }
    Reach-IsCounted p (later {before} r (inline_start h)) =
        let c : IsCounted before = Reach-IsCounted before r in
        record { counts = c.counts; once = c.once; at_most = omega arith }
    Reach-IsCounted p (later {before} r (call i h e)) =
        completed-IsCounted before i h e (Reach-IsCounted before r)
    Reach-IsCounted p (later {before} r (finish h e)) =
        suspend-IsCounted before e (Reach-IsCounted before r)

    -- However the futures complete, inside their start or later and in any order, the coroutine that
    -- awaits fewer than 2^64 - 1 of them has been resumed once if all are complete and the suspension
    -- has counted, and otherwise not yet.
    pub resumes_once :
        (p : Pack) → Reach n p → p.resumed ≡ (if amount p == n && p.suspended then 1 else 0)
    resumes_once p r =
        let c : IsCounted p = Reach-IsCounted p r in
        let most : amount p ≤ n = total-le one_if n p.complete one_if-le in
        elim (Bool-cases p.suspended) [
          | inl e ↦ rw e (ground (arith, c.once, c.counts, most, ap one_if e))
          | inr e ↦ rw e (ground (arith, c.once, c.counts, most, ap one_if e))
        ]
