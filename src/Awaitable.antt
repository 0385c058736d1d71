-- ===== src/Awaitable.antt =====
-- includes/zab/stateful_awaitable.hpp: awaitables made of one functor, which is asked whether it is
-- ready, suspends, and is notified of results until the coroutine that awaits it goes on. `S` is what
-- the functor captures. Only functors whose suspension returns nothing are modelled.
pub mod Drive
use zab.Prelude.{ℕ, zero, suc, Bool, true, false, Option, none, some, if◌then◌else◌}

-- `notify_ctl`
pub data NotifyCtl : Type 0 where
  suspend resume ready : NotifyCtl

-- The branches of a functor. A result is an `int`.
pub record Stateful {ℓ} (S : Type ℓ) : Type ℓ where
  pub is_ready : S → Bool
  pub on_suspend : S → S
  pub on_notify : S → ℕ → S × NotifyCtl

-- The awaiting event is executed, or the functor waits for another result.
pub data Outcome {ℓ} (S : Type ℓ) : Type ℓ where
  waits resumes : S → Outcome S

module _ {ℓ} {S : Type ℓ} (f : Stateful S) where
  -- `co_await` on it
  unfoldable pub start : S → Outcome S
  start s = if f.is_ready s then resumes s else waits (f.on_suspend s)

  -- The loop of `notify` on what the functor returned: `kReady` becomes one of the other two.
  unfoldable pub settle : NotifyCtl → S → Outcome S
  settle suspend s = waits (f.on_suspend s)
  settle resume s = resumes s
  settle ready s = if f.is_ready s then resumes s else waits (f.on_suspend s)

  unfoldable pub notify : S → ℕ → Outcome S
  notify s result = let (s', ctl) = f.on_notify s result in settle ctl s'

  -- Notifications from an environment `E` until the awaiting event is executed; `none` is fuel that ran
  -- out.
  unfoldable pub drive {κ} : {E : Type κ} → (E → S → E × ℕ) → ℕ → E → Outcome S → Option (E × S)
  drive env fuel e (resumes s) = some (e, s)
  drive env zero e (waits s) = none
  drive env (suc fuel) e (waits s) =
      let (e', result) = env e s in let rest = drive env fuel e' (notify s result) in rest
