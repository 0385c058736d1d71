-- ===== src/FirstOf/Tests.antt =====
-- A race of two futures.
use zab.Prelude.{ℕ, ◌≤◌, ◌<◌, ◌≡◌, refl, arith, some}
use zab.FirstOf.{
  over, Race, init, start, exchange, store, unpause, starts, exchanges, stores, unpauses, Reach,
  begun, later,
}
use zab.FirstOf.Winner.{first_returns, returns_in_the_end}

-- The second completes with 7 before the first does with 5, and stores its result behind that.
abbrev ended : Race ℕ
ended = unpause (store (exchange (exchange (start (start init)) 1 7) 0 5) 1 7) 1

ended-Reach : Reach 2 ended
ended-Reach =
    later
      (later
        (later
          (later (later (later begun (starts (omega arith))) (starts (omega arith)))
            (exchanges 1 7 (omega arith) refl))
          (exchanges 0 5 (omega arith) refl))
        (stores 1 (omega arith) refl))
      (unpauses 1 (omega arith) refl)

all_over : (i : ℕ) → i < 2 → ended.pc i ≡ over
all_over i h = ground arith

first_returns_example :
    (ended.resumed ≤ 1)
    × (1 ≤ ended.resumed
        → (i : ℕ) × (value : ℕ) × (ended.first ≡ some (i, value))
          × (ended.result ≡ some (i, value)))
first_returns_example = first_returns 2 ended-Reach

returns_in_the_end_example : ended.resumed ≡ 1
returns_in_the_end_example = returns_in_the_end 2 ended-Reach (omega arith) all_over
