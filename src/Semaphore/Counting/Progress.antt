-- ===== src/Semaphore/Counting/Progress.antt =====
-- That the `control` of the counting semaphore goes on.
use zab.Prelude.{ℕ, zero, suc, ◌≤◌, ◌<◌, ◌≡◌, refl, false, arith, ap, total-positive}
use zab.Semaphore.Counting.{
  ℤ, pos, negsuc, positive, Control, found, resuming, off, transferring, missed, spinning,
  subtracting, System, Turn, look, add_found, add_missed, resumes, subtracts, Reach,
}
use zab.Semaphore.Counting.Moves.{stopped, Held, Reach-Held}
use zab.Semaphore.Counting.Moves.{transferred}
use zab.Semaphore.Counting.Permits.{Reach-Balanced}
use zab.Semaphore.Counting.Balance.{above, awaiting, owed}

not_positive : (z : ℤ) → positive z ≡ false → above z ≡ 0
not_positive (pos zero) e = refl
not_positive (pos (suc n)) e = cc
not_positive (negsuc n) e = refl

some_turn :
    {s : System}
    → Held s
    → (k : Control) → s.control ≡ k
    → stopped k ≡ false
    → (t : System) × Turn s t
some_turn l off e r = cc
some_turn {s} l transferring e r = let t = transferred l in (_, look t.fuel (rw e refl) t.result)
some_turn l (found h) e r = (_, add_found e)
some_turn l missed e r = (_, add_missed e)
some_turn {s} l spinning e r = let t = transferred l in (_, look t.fuel (rw e refl) t.result)
some_turn l (resuming h) e r = (_, resumes e)
some_turn l subtracting e r = (_, subtracts e)

module _ (n start : ℕ) where
  -- Wherever `control` stands while it runs it has a next move, so it neither faults in `transfer` nor
  -- blocks; and where it spins, some coroutine has counted itself down and was not resumed yet.
  pub control_goes_on :
      {s : System}
      → Reach n start s
      → stopped s.control ≡ false
      → ((t : System) × Turn s t)
        × (s.control ≡ spinning → (c : ℕ) × (c < n) × (1 ≤ awaiting (s.pc c)))
  control_goes_on {s} r z =
      let b = Reach-Balanced n start r in
      let l = Reach-Held n start r in
      (
        some_turn l s.control refl z,
        λ e. total-positive awaiting n s.pc (
            omega
              (arith, b.balance, b.enough, ap owed e, not_positive s.sem.active (b.none_free e))),
      )
