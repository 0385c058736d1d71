-- ===== src/Timer/Abstract.antt =====
-- The sleepers of the timer service as a bag of marks and handles: it forgets the order in which they
-- came, how the service files them, and the threads.
pub mod Buckets
pub mod Refines
use zab.Prelude.{
  ℕ, ◌+◌, ◌^◌, ◌<◌, ◌≡◌, refl, ◌==◌, ltb, leb, ◌&&◌, Bool, true, false, List, [], ◌∷◌, ◌++◌, Option,
  none, some, if◌then◌else◌, arith, ap, ◌∙◌, Bool-cases, inl, inr, ==→≡, ≢→==, ◌≤◌, ◌≢◌, ◌-◌, ◌*◌,
  sym, u64_mod, add64, Option-cases,
}
use mathlib.Core.Quot
use mathlib.Core.Quot.{Quot, Quot-set}
use zab.Timer.Buckets.{Map, Waiter}

-- A mark and a handle.
abbrev pub Sleeper : Type 0
Sleeper = ℕ × ℕ

abbrev pub amount : (mark handle : ℕ) → List Sleeper → ℕ
amount mark handle [] = 0
amount mark handle ((m, h) ∷ xs) =
    (if m == mark && h == handle then 1 else 0) + amount mark handle xs

abbrev pub Same : List Sleeper → List Sleeper → Type 0
Same xs ys = (mark handle : ℕ) → amount mark handle xs ≡ amount mark handle ys

abbrev pub Sleepers : Type 0
Sleepers = Quot Same

pub Same-cons : (x : Sleeper) (xs ys : List Sleeper) → Same xs ys → Same (x ∷ xs) (x ∷ ys)
Same-cons (m, h) xs ys s mark handle = omega (arith, s mark handle)

-- One more sleeper.
unfoldable pub add : Sleeper → Sleepers → Sleepers
add x = Quot.lift Quot-set (λ xs. Quot.mk (x ∷ xs)) (λ xs ys s. Quot.sound (Same-cons x xs ys s))

pub add_comm : (x y : Sleeper) (b : Sleepers) → add x (add y b) ≡ add y (add x b)
unfolding add
add_comm (m, h) (m', h') =
    Quot.ind (λ b. Quot-set _ _) (λ xs. Quot.sound (λ mark handle. omega arith))

-- Those who sleep longer than till `now`.
abbrev pub above : (now : ℕ) → List Sleeper → List Sleeper
above now [] = []
above now ((m, h) ∷ xs) = let rest = above now xs in if leb m now then rest else (m, h) ∷ rest

pub amount-above :
    (now mark handle : ℕ) (xs : List Sleeper)
    → amount mark handle (above now xs) ≡ (if leb mark now then 0 else amount mark handle xs)
amount-above now mark handle [] = ground arith
amount-above now mark handle ((m, h) ∷ xs) = ground (arith, amount-above now mark handle xs)

pub above-Same : (now : ℕ) (xs ys : List Sleeper) → Same xs ys → Same (above now xs) (above now ys)
above-Same now xs ys s mark handle =
    ground (arith, amount-above now mark handle xs, amount-above now mark handle ys, s mark handle)

unfoldable pub sleep_on : (now : ℕ) → Sleepers → Sleepers
sleep_on now =
    Quot.lift Quot-set (λ xs. Quot.mk (above now xs))
      (λ xs ys s. Quot.sound (above-Same now xs ys s))

-- The sleepers of a map.
abbrev pub under : ℕ → List Waiter → List Sleeper
under m [] = []
under m ((handle, thread) ∷ ws) = (m, handle) ∷ under m ws

abbrev pub entries : Map → List Sleeper
entries [] = []
entries ((m, ws) ∷ rest) = under m ws ++ entries rest

pub amount-append :
    (mark handle : ℕ) (xs ys : List Sleeper)
    → amount mark handle (xs ++ ys) ≡ amount mark handle xs + amount mark handle ys
amount-append mark handle [] ys = omega arith
amount-append mark handle ((m, h) ∷ xs) ys = omega (arith, amount-append mark handle xs ys)
