-- ===== src/Proxy/Tests.antt =====
-- A coroutine that yields the thread it runs on, two times.
use zab.Prelude.{ℕ, zero, suc, ◌≡◌, Option, none, some, List, [], ◌∷◌, map, refl, arith}
use zab.ReusableFuture.{Emission, yields, returns}
use zab.ReusableFuture.Loop.{Emits, last, more}
use zab.Proxy.{fresh, awaits, simple_proxy}
use zab.Proxy.Threads.{proxied_values}

abbrev resume : (thread : ℕ) → ℕ → Emission ℕ ℕ
resume thread zero = returns none
resume thread (suc n) = yields (some thread) n

abbrev emits_on : (thread : ℕ) → ℕ → ℕ
emits_on thread n = thread

abbrev emitted : List (Option ℕ)
emitted = some 4 ∷ some 4 ∷ none ∷ []

emits : Emits (resume 4) 2 emitted
emits = more refl (more refl (last refl))

proxied_values_example :
    awaits resume emits_on 4 9 (1 ∷ 2 ∷ 1 ∷ []) (fresh 2) ≡ map (λ v. (v, 1)) emitted
proxied_values_example =
    proxied_values resume emits_on 4 9 1 (λ e. omega arith) (λ e. omega arith) (λ e. omega arith)
      (2 ∷ 1 ∷ []) 2 emitted emits refl

simple_returns : simple_proxy (λ thread. (thread, 3)) 4 1 ≡ (4, 1)
unfolding simple_proxy
simple_returns = refl
