-- ===== src/SpinLock/Recursive/Safety.antt =====
-- recursive_spin_lock: the owner's depth is the counter, and nobody else has any depth.
use zab.Prelude.{
  ℕ, suc, ◌+◌, ◌≤◌, ◌<◌, ◌≡◌, ◌≢◌, refl, List, [], ◌∷◌, arith, length, u64_mod, subst, Bool-cases,
  ◌==◌, ==→≡, ==→≢, inl, inr,
}
use zab.SpinLock.{Call}
use zab.SpinLock.Recursive.{access, System, init, turn, run, depth_of}

-- After `steps` turns.
pub record Inv (s : System) (steps : ℕ) : Type 0 where
  pub owner :
      (i : ℕ) → s.word.thread ≡ suc i → (depth_of (s.pc i) ≡ s.word.count) × (0 < s.word.count)
  pub others : (i : ℕ) → s.word.thread ≢ suc i → depth_of (s.pc i) ≡ 0
  pub unowned : s.word.thread ≡ 0 → s.word.count ≡ 0
  pub bound : s.word.count ≤ steps

Inv-init : Inv init 0
Inv-init = record {
  owner = λ i e. absurd (omega arith);
  others = λ i n. refl;
  unowned = λ e. refl;
  bound = omega arith;
}

pub turn-Inv :
    {s : System} {steps : ℕ} (i : ℕ) (call : Call)
    → suc steps < u64_mod
    → Inv s steps
    → Inv (turn s i call) (suc steps)
unfolding turn access
turn-Inv {s} i call small inv = record {
  owner = λ j. ground (arith, inv.owner i, inv.owner j, inv.others i, inv.others j);
  others = λ j. ground (arith, inv.owner i, inv.owner j, inv.others i, inv.others j);
  unowned = ground (arith, inv.owner i, inv.others i);
  bound = ground (arith, inv.owner i, inv.others i);
}

run-Inv :
    (schedule : List (ℕ × Call)) (steps : ℕ) {s : System}
    → steps + length schedule < u64_mod
    → Inv s steps
    → Inv (run s schedule) (steps + length schedule)
unfolding run
run-Inv [] steps {s} small inv = subst (Inv s) (omega arith) inv
run-Inv ((i, call) ∷ rest) steps {s} small inv =
    subst (Inv (run (turn s i call) rest)) (omega arith)
      (run-Inv rest (suc steps) (omega arith) (turn-Inv i call (omega arith) inv))

-- Under every schedule shorter than 2^64 turns, from a new lock: a thread that holds the lock is the
-- owner in `thread_` and has locked it `count_` times more than it unlocked, so two threads never
-- hold it together; and if no thread owns it the counter is 0 and no thread holds it.
pub recursive_exclusion :
    (schedule : List (ℕ × Call))
    → length schedule < u64_mod
    → let s = run init schedule in
      ((i : ℕ)
        → 0 < depth_of (s.pc i)
        → (s.word.thread ≡ suc i) × (depth_of (s.pc i) ≡ s.word.count))
      × ((i j : ℕ) → 0 < depth_of (s.pc i) → 0 < depth_of (s.pc j) → i ≡ j)
      × (s.word.thread ≡ 0 → (s.word.count ≡ 0) × ((i : ℕ) → depth_of (s.pc i) ≡ 0))
recursive_exclusion schedule small =
    let inv = run-Inv schedule 0 (omega arith) Inv-init in
    (
      λ i h. let e = holder (run init schedule) inv i h in (e, (inv.owner i e).0),
      λ i j h k.
          omega (arith, holder (run init schedule) inv i h, holder (run init schedule) inv j k),
      λ z. (inv.unowned z, λ i. inv.others i (omega arith)),
    )
  where
    holder :
        (s : System) {steps : ℕ}
        → Inv s steps
        → (i : ℕ) → 0 < depth_of (s.pc i)
        → s.word.thread ≡ suc i
    holder s inv i h = elim (Bool-cases (s.word.thread == suc i)) [
      | inl e ↦ ==→≡ _ _ e
      | inr n ↦ absurd (omega (arith, inv.others i (==→≢ _ _ n)))
    ]
