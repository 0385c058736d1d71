-- ===== src/Proxy.antt =====
-- includes/zab/engine_enabled.hpp: `proxy`, which runs a member coroutine on a required thread, over
-- ReusableFuture. Threads are numbers. What a member does from one suspension to the next depends on the
-- thread that it is resumed on, and it may end up on another one; these are parameters.
pub mod Threads
mod Tests
use zab.Prelude.{ℕ, ◌==◌, ◌&&◌, not, Bool, Option, none, some, List, [], ◌∷◌, if◌then◌else◌}
use zab.Engine.{any_thread}
use zab.ReusableFuture.{Emission, yields, returns, Promise, new, complete, co_await}

-- `_required_thread != thread_t{} && _required_thread != t`
abbrev pub must_move : (required t : ℕ) → Bool
must_move required t = not (required == any_thread) && not (required == t)

-- The thread after `if (return_thread != thread_t{}) { co_await yield(return_thread); }`.
abbrev pub return_to : (return_thread at : ℕ) → ℕ
return_to return_thread at = if return_thread == any_thread then at else return_thread

-- `proxy` of a member that gives a `simple_future`, called on the thread `t`: what it returns, and the
-- thread on which who awaits it goes on.
unfoldable pub simple_proxy : {V : Type 0} → (member : ℕ → V × ℕ) → (required t : ℕ) → V × ℕ
simple_proxy member required t =
    let moves = must_move required t in
    let (result, at) = member (if moves then required else t) in
    (result, return_to (if moves then t else any_thread) at)

-- `proxy` of a member that is an `async_function`, which runs on by itself: what it does, and the
-- thread on which the coroutine of the proxy ends.
unfoldable pub async_proxy : {V : Type 0} → (member : ℕ → V) → (required t : ℕ) → V × ℕ
async_proxy member required t =
    let moves = must_move required t in
    let on = if moves then required else t in
    (member on, return_to (if moves then t else any_thread) on)

-- `proxy` of a member that gives a `reusable_future`: before it was awaited, and suspended at its
-- `co_yield`, with `return_thread` and the promise of `generator`.
pub data Proxied (G A : Type 0) : Type 0 where
  fresh : G → Proxied G A
  looping : (return_thread : ℕ) → Promise G A → Proxied G A

-- The thread on which the generator is resumed, by a round that begins on `t`.
abbrev pub run_on : (required return_thread t : ℕ) → ℕ
run_on required return_thread t = if must_move required return_thread then required else t

-- The thread on which the round ends, after an emission on `at`.
abbrev pub back_from : (required return_thread at : ℕ) → ℕ
back_from required return_thread at =
    if not (return_thread == any_thread) && not (required == return_thread)
    then return_thread
    else at

-- What comes of an emission, and then of what is awaited after it.
abbrev pub take_emission :
    {G A : Type 0}
    → (Proxied G A → List (Option A × ℕ))
    → Option (Emission (Proxied G A) A) × ℕ
    → List (Option A × ℕ)
take_emission next (none, at) = []
take_emission next (some (returns v), at) = (v, at) ∷ []
take_emission next (some (yields v s), at) = (v, at) ∷ next s

module _ {G A : Type 0} (resume : (thread : ℕ) → G → Emission G A)
    (emits_on : (thread : ℕ) → G → ℕ) where
  -- The thread on which a generator that is resumed on `t` emits.
  abbrev pub emission_thread : Option G → (t : ℕ) → ℕ
  emission_thread none t = t
  emission_thread (some g) t = emits_on t g

  -- `if (!generator.complete()) { co_yield result; } else { co_return result; }`
  abbrev pub hand_on :
      (return_thread : ℕ) → Option (Promise G A × Option A) → Option (Emission (Proxied G A) A)
  hand_on return_thread none = none
  hand_on return_thread (some (p, result)) =
      some (if complete p then returns result else yields result (looping return_thread p))

  module _ (required me : ℕ) where
    -- A round of the loop by the proxy's coroutine `me`, which begins on `t`: its emission, and the thread
    -- on which that is handed on; `none` is a fault.
    unfoldable pub round :
        (return_thread t : ℕ) → Promise G A → Option (Emission (Proxied G A) A) × ℕ
    round return_thread t p =
        let on = run_on required return_thread t in
        (
          hand_on return_thread (co_await (resume on) me p),
          back_from required return_thread (emission_thread p.code on),
        )

    -- The coroutine of the proxy resumed on `t`.
    unfoldable pub proxy_resume : Proxied G A → (t : ℕ) → Option (Emission (Proxied G A) A) × ℕ
    proxy_resume (fresh g) t = round t t (new g)
    proxy_resume (looping return_thread p) t = round return_thread t p

    -- The future of the proxy awaited on these threads in turn, up to its return: what comes, and on
    -- which thread.
    unfoldable pub awaits : List ℕ → Proxied G A → List (Option A × ℕ)
    awaits [] s = []
    awaits (t ∷ threads) s = take_emission (awaits threads) (proxy_resume s t)
