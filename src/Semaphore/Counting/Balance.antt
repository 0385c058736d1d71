-- ===== src/Semaphore/Counting/Balance.antt =====
-- The permits of the counting semaphore: how many there are, and how many may be granted.
use zab.Prelude.{
  ℕ, zero, suc, ◌+◌, ◌-◌, ◌≤◌, ◌<◌, ◌≡◌, inl, inr, refl, sym, ◌∙◌, true, false, arith, subst, ◌⊎◌,
  Bool-cases, total, total-update, le-total, ltb, count,
}
use mathlib.Core.Bool.{false≢true}
use zab.Semaphore.Counting.{
  ℤ, pos, negsuc, plus_one, minus_one, positive, Pc, idle, linking, looping, waiting, Control,
  found, resuming, off, transferring, missed, spinning, subtracting, System, set_pc, acquire,
  count_down,
}
use zab.Semaphore.Counting.Linked.{held, waits, waits-le}
use zab.Semaphore.Counting.Moves.{Held}

-- The two sides of an integer.
abbrev pub above : ℤ → ℕ
above (pos n) = n
above (negsuc n) = 0

abbrev pub below : ℤ → ℕ
below (pos n) = 0
below (negsuc n) = suc n

pub above-plus_one : (z : ℤ) → above (plus_one z) + below z ≡ suc (above z) + below (plus_one z)
above-plus_one (pos n) = omega arith
above-plus_one (negsuc zero) = omega arith
above-plus_one (negsuc (suc n)) = omega arith

above-minus_one : (z : ℤ) → suc (above (minus_one z)) + below z ≡ above z + below (minus_one z)
above-minus_one (pos zero) = omega arith
above-minus_one (pos (suc n)) = omega arith
above-minus_one (negsuc n) = omega arith

positive-above : (z : ℤ) → positive z ≡ true → (1 ≤ above z) × (below z ≡ 0)
positive-above (pos zero) e = cc
positive-above (pos (suc n)) e = (omega arith, refl)
positive-above (negsuc n) e = cc

pub positive-minus_one : (z : ℤ) → positive z ≡ false → positive (minus_one z) ≡ false
positive-minus_one (pos zero) e = refl
positive-minus_one (pos (suc n)) e = cc
positive-minus_one (negsuc n) e = refl

-- A coroutine that counted itself down and was not resumed.
abbrev pub awaiting : Pc → ℕ
awaiting linking = 1
awaiting (looping previous) = 1
awaiting waiting = 1
awaiting _ = 0

-- `control` added a permit and did not count its release down yet.
abbrev pub ahead : Control → ℕ
ahead spinning = 1
ahead (resuming h) = 1
ahead subtracting = 1
ahead _ = 0

-- `control` added a permit that the waiter it resumes next takes.
abbrev pub owed : Control → ℕ
owed spinning = 1
owed (resuming h) = 1
owed _ = 0

pub waits-awaiting : (p : Pc) → waits p ≤ awaiting p
waits-awaiting p = ground arith

module _ (n start : ℕ) where
  -- The count, those who await, and what is left to grant.
  pub record Balanced (s : System) : Type 0 where
    pub slack : ℕ
    pub balance : above s.sem.active + total awaiting n s.pc ≡ below s.sem.active + slack
    pub account : slack + (s.granted + s.sem.release_count) ≡ start + (s.released + ahead s.control)
    pub enough : owed s.control ≤ slack
    pub none_free : s.control ≡ spinning → positive s.sem.active ≡ false
    pub outside : (c : ℕ) → n ≤ c → waits (s.pc c) ≡ 0

  in_range-cases : (h : ℕ) → (h < n) ⊎ (n ≤ h)
  in_range-cases h = elim (Bool-cases (ltb h n)) [
    | inl e ↦ inl (ground arith)
    | inr e ↦ inr (ground arith)
  ]

  -- The waiter that `control` has is one of those who await.
  pub held-awaiting :
      {s : System} (h : ℕ)
      → Held s
      → Balanced s
      → s.control ≡ resuming h
      → (h < n) × (1 ≤ total awaiting n s.pc) × (waits (s.pc h) ≡ 1)
  held-awaiting {s} h l b e =
      let one : waits (s.pc h) ≡ 1 = ground (
        arith,
        waits-le (s.pc h),
        subst (λ k. count h (held k) + (count h l.stack + count h l.queue) ≡ waits (s.pc h)) e
            (l.inv.parked h),
      ) in
      let low : h < n = elim (in_range-cases h) [
        | inl in_range ↦ in_range
        | inr out ↦ absurd (omega (arith, b.outside h out, one))
      ] in
      (low, omega (arith, le-total awaiting n s.pc h low, waits-awaiting (s.pc h), one), one)

  module _ {s : System} (l : Held s) (b : Balanced s) where
    -- A move of a coroutine that changes neither the counts nor whether it awaits.
    pub local :
        (c : ℕ) (p : Pc)
        → c < n
        → awaiting p ≡ awaiting (s.pc c)
        → (n ≤ c → waits p ≡ 0)
        → Balanced (set_pc s c p)
    local c p low w o = record {
      slack = b.slack;
      balance = omega (arith, b.balance, total-update awaiting n s.pc c p low);
      account = b.account;
      enough = b.enough;
      none_free = b.none_free;
      outside = λ j h. ground (arith, b.outside j h);
    }

    -- A permit that shows in the count is not owed to the waiter of `control`.
    owed-slack : (k : Control) → s.control ≡ k → positive s.sem.active ≡ true → owed k < b.slack
    owed-slack spinning e p = absurd (false≢true (sym (b.none_free e) ∙ p))
    owed-slack (resuming h) e p =
        let (low, one, w) = held-awaiting h l b e in
        omega (arith, positive-above s.sem.active p, b.balance, one)
    owed-slack off e p = omega (arith, positive-above s.sem.active p, b.balance)
    owed-slack transferring e p = omega (arith, positive-above s.sem.active p, b.balance)
    owed-slack (found h) e p = omega (arith, positive-above s.sem.active p, b.balance)
    owed-slack missed e p = omega (arith, positive-above s.sem.active p, b.balance)
    owed-slack subtracting e p = omega (arith, positive-above s.sem.active p, b.balance)

    pub acquire-Balanced :
        (c : ℕ)
        → c < n
        → awaiting (s.pc c) ≡ 0
        → positive s.sem.active ≡ true
        → Balanced (acquire s c)
    acquire-Balanced c low w p =
        let spare = owed-slack s.control refl p in
        record {
          slack = b.slack - 1;
          balance = omega (
            arith,
            b.balance,
            spare,
            above-minus_one s.sem.active,
            total-update awaiting n s.pc c idle low,
          );
          account = omega (arith, b.account, spare);
          enough = omega (arith, spare);
          none_free = λ e. absurd (false≢true (sym (b.none_free e) ∙ p));
          outside = λ j h. ground (arith, b.outside j h);
        }

    pub count_down-Balanced : (c : ℕ) → c < n → awaiting (s.pc c) ≡ 0 → Balanced (count_down s c)
    count_down-Balanced c low w = record {
      slack = b.slack;
      balance = omega (
        arith,
        b.balance,
        above-minus_one s.sem.active,
        total-update awaiting n s.pc c linking low,
      );
      account = b.account;
      enough = b.enough;
      none_free = λ e. positive-minus_one s.sem.active (b.none_free e);
      outside = λ j h. ground (arith, b.outside j h);
    }
