-- ===== src/PauseToken/Tests.antt =====
-- Runs of a pause token: coroutines 2 and 4 suspend on it and 6 unpauses it.
use zab.Prelude.{ℕ, ◌+◌, ◌≡◌, ◌≢◌, ◌⊎◌, refl, false, List, [], ◌∷◌, arith, count, total, In, NotIn}
use zab.Memory.{Chain}
use zab.PauseToken.{
  unpaused_flag, paused, Call, await, unpause, idle, waiting, unpausing, walking, access, System,
  init, Turn, turn, run, waits,
}
use zab.PauseToken.Turns.{Located, suspended_once}
use zab.PauseToken.Unpause.{again, unpause_resumes}

abbrev by : ℕ → Call → Turn
by c call = record { who = c; call = call; weak = false }

abbrev two_suspend : List Turn
two_suspend =
    by 2 await
    ∷ by 2 await
    ∷ by 2 await
    ∷ by 4 await
    ∷ by 4 await
    ∷ by 4 await
    ∷ by 2 await
    ∷ by 4 await
    ∷ by 4 await
    ∷ by 6 unpause
    ∷ []

two_suspend_state :
    let s = run 8 init two_suspend in
    (s.token.word ≡ 4) × (s.pc 2 ≡ waiting) × (s.pc 4 ≡ waiting) × (s.pc 6 ≡ unpausing)
unfolding run turn access
two_suspend_state = (refl, refl, refl, refl)

suspended_once_example :
    let s = run 8 init two_suspend in
    (h : Located 8 s.token s.pc) × ((j : ℕ)
      → count j h.stack + total (count j) 8 h.rest ≡ waits (s.pc j))
    × ((c old : ℕ) → s.pc c ≡ walking old → Chain s.token.links 0 old (h.rest c))
    × (((s.token.word ≡ unpaused_flag) × (h.stack ≡ []))
        ⊎ Chain s.token.links 0 s.token.word h.stack)
suspended_once_example = suspended_once 8 two_suspend

abbrev both : System
both = run 8 init two_suspend

unpause_resumes_example :
    let t = again 8 6 4 both in
    (t.pc 6 ≡ idle)
    × ((j : ℕ) → In j (4 ∷ 2 ∷ []) → t.pc j ≡ idle)
    × ((j : ℕ) → NotIn j (4 ∷ 2 ∷ []) → j ≢ 6 → t.pc j ≡ both.pc j)
    × (paused t.token ≡ false)
unfolding run turn access
unpause_resumes_example =
    unpause_resumes 8 6 (omega arith) (omega arith) both (4 ∷ 2 ∷ []) refl (omega arith)
      (omega arith) (omega arith)
