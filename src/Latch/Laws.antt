-- ===== src/Latch/Laws.antt =====
-- When a latch opens.
use zab.Prelude.{ℕ, ◌+◌, ◌^◌, ◌<◌, ◌≡◌, ltb, leb, List, [], ◌∷◌, arith, if◌then◌else◌, sub64, subst}
use zab.Latch.{Latch, create, count_down, try_wait, count_downs}

abbrev pub sum : List ℕ → ℕ
sum [] = 0
sum (x ∷ xs) = x + sum xs

-- A latch for `amount` that `arrived` have counted down.
abbrev pub After : ℕ → ℕ → Latch → Type 0
After amount arrived l =
    (l.count ≡ sub64 amount arrived) × (l.unpaused ≡ (if leb amount arrived then 1 else 0))

pub count_down-After :
    (l : Latch) (amount arrived more : ℕ)
    → 0 < amount
    → amount < 2 ^ 63
    → arrived + more < 2 ^ 63
    → After amount arrived l
    → After amount (arrived + more) (count_down l more)
unfolding count_down
count_down-After l amount arrived more h k b a = ground arith

count_downs-After :
    (amounts : List ℕ) (l : Latch) (amount arrived : ℕ)
    → 0 < amount
    → amount < 2 ^ 63
    → arrived + sum amounts < 2 ^ 63
    → After amount arrived l
    → After amount (arrived + sum amounts) (count_downs l amounts)
unfolding count_downs
count_downs-After [] l amount arrived h k b a = subst (λ x. After amount x l) (omega arith) a
count_downs-After (more ∷ rest) l amount arrived h k b a =
    subst (λ x. After amount x (count_downs (count_down l more) rest)) (omega arith)
      (count_downs-After rest (count_down l more) amount (arrived + more) h k (omega arith)
        (count_down-After l amount arrived more h k (omega arith) a))

-- A latch made for a positive `amount`, both it and the sum of the counts below 2^63: whatever the
-- order of the counts, `unpause` was called exactly once if they reach the amount and never if they
-- do not, and `try_wait` says true exactly while the amount is not reached.
pub opens_once :
    (amount : ℕ) (amounts : List ℕ)
    → 0 < amount
    → amount < 2 ^ 63
    → sum amounts < 2 ^ 63
    → let l = count_downs (create amount) amounts in
      (l.unpaused ≡ (if leb amount (sum amounts) then 1 else 0))
      × (try_wait l ≡ ltb (sum amounts) amount)
unfolding try_wait
opens_once amount amounts h k b =
    let a = count_downs-After amounts (create amount) amount 0 h k (omega arith) (ground arith) in
    (ground (arith, a), ground (arith, a))
