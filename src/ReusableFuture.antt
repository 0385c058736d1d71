-- ===== src/ReusableFuture.antt =====
-- includes/zab/reusable_promise.hpp, includes/zab/reusable_future.hpp and includes/zab/for_each.hpp: a
-- coroutine that yields values in `A` until it returns, and the loop over them. What the coroutine does
-- from one suspension to the next is the parameter `resume` on its states `G`; it may go on for ever.
pub mod Loop
mod Tests
use zab.Prelude.{ℕ, zero, suc, ◌==◌, ◌≡◌, Bool, true, false, not, Option, none, some, if◌then◌else◌}

-- `co_yield` and `co_return` of a value, or of `std::nullopt`.
pub data Emission (G A : Type 0) : Type 0 where
  yields : Option A → G → Emission G A
  returns : Option A → Emission G A

-- `reusable_promise::State`
pub data State : Type 0 where
  empty item complete_ : State

-- `state_`, `data_` and `underlying_`, which is the coroutine that awaits, with where the coroutine of
-- the promise stands; `none` is its final suspension.
pub record Promise (G A : Type 0) : Type 0 where
  pub state : State
  pub content : Option A
  pub underlying : Option ℕ
  pub code : Option G

-- `for_ctl`
pub data ForCtl : Type 0 where
  break_ continue_ : ForCtl

abbrev pub is_complete : State → Bool
is_complete complete_ = true
is_complete _ = false

abbrev pub has_value : State → Bool
has_value empty = false
has_value _ = true

abbrev pub prepared : State → State
prepared item = empty
prepared s = s

-- `data_.emplace`; `std::nullopt` leaves it.
abbrev pub emplace {ℓ} : {A : Type ℓ} → Option A → Option A → Option A
emplace content none = content
emplace content (some v) = some v

abbrev pub ends_loop : ForCtl → Bool
ends_loop break_ = true
ends_loop continue_ = false

module _ {G A : Type 0} where
  -- `get_return_object`, with the suspension at the start.
  abbrev pub new : G → Promise G A
  new g = record { state = empty; content = none; underlying = none; code = some g }

  abbrev pub complete : Promise G A → Bool
  complete p = is_complete p.state

  abbrev pub value_ready : Promise G A → Bool
  value_ready p = has_value p.state

  abbrev pub prepare : Promise G A → Promise G A
  prepare p = record p { state = prepared p.state; content = none }

  -- `yield_value` and `return_value`, and `final_suspend`, which gives what runs next.
  abbrev pub emit : Promise G A → Emission G A → Promise G A × Option ℕ
  emit p (yields v g) = (
    record { state = item; content = emplace p.content v; underlying = none; code = some g },
    p.underlying,
  )
  emit p (returns v) = (
    record { state = complete_; content = emplace p.content v; underlying = none; code = none },
    p.underlying,
  )

  module _ (resume : G → Emission G A) where
    -- The coroutine is resumed; at its final suspension that is a fault.
    abbrev pub run_from : Promise G A → Option G → Option (Promise G A × Option ℕ)
    run_from p none = none
    run_from p (some g) = some (emit p (resume g))

    -- `await_suspend` for the coroutine `awaiter`, and what comes back to it: `await_resume`, if the
    -- coroutine that runs next is the one that awaits.
    abbrev pub back_to : ℕ → Option (Promise G A × Option ℕ) → Option (Promise G A × Option A)
    back_to awaiter none = none
    back_to awaiter (some (p, none)) = none
    back_to awaiter (some (p, some next)) = if next == awaiter then some (p, p.content) else none

    -- `co_await` of the future.
    unfoldable pub co_await : ℕ → Promise G A → Option (Promise G A × Option A)
    co_await awaiter p =
        let q = prepare p in
        if value_ready q
        then some (q, q.content)
        else back_to awaiter (run_from (record q { underlying = some awaiter }) q.code)

    module _ {T : Type 0} (functor : T → Option A → T × ForCtl) where
      -- One round of `for_each`, with what the loop does after it.
      abbrev pub for_round :
          (T → Promise G A → Option (T × Promise G A))
          → T
          → Option (Promise G A × Option A)
          → Option (T × Promise G A)
      for_round next t none = none
      for_round next t (some (p, v)) =
          let (t', ctl) = functor t v in if ends_loop ctl then some (t', p) else next t' p

      -- `for_each`, by the coroutine `me`; `none` is a fault, or fuel that ran out.
      pub for_each : (fuel me : ℕ) → T → Promise G A → Option (T × Promise G A)
      for_each zero me t p = none
      for_each (suc fuel) me t p =
          let more = for_round (λ t' p'. for_each fuel me t' p') t (co_await me p) in
          if complete p then some (t, p) else more
