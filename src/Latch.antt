-- ===== src/Latch.antt =====
-- includes/zab/async_latch.hpp. `count_` is a 64-bit two's complement pattern; each `count_down` is one
-- `fetch_sub`, so any interleaving of callers is a sequence of calls.
pub mod Laws
mod Tests
use zab.Prelude.{ℕ, suc, ◌+◌, ◌&&◌, Bool, List, [], ◌∷◌, if◌then◌else◌, slt64, sle64, sub64}

-- `count_`, and how often `complete_.unpause()` was called.
pub record Latch : Type 0 where
  pub count : ℕ
  pub unpaused : ℕ

abbrev pub create : ℕ → Latch
create amount = record { count = amount; unpaused = 0 }

unfoldable pub count_down : Latch → ℕ → Latch
count_down l amount =
    let number = l.count in
    let counted = record l { count = sub64 number amount } in
    if slt64 0 number && sle64 number amount
    then record counted { unpaused = suc l.unpaused }
    else counted

unfoldable pub try_wait : Latch → Bool
try_wait l = slt64 0 l.count

-- The calls of all threads, in the order of their `fetch_sub`.
unfoldable pub count_downs : Latch → List ℕ → Latch
count_downs l [] = l
count_downs l (amount ∷ rest) = count_downs (count_down l amount) rest
