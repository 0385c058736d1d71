-- ===== src/Timer/Abstract/Refines.antt =====
-- The timer service as a bag of sleepers.
use zab.Prelude.{
  ℕ, ◌+◌, ◌<◌, ◌≡◌, List, ◌∷◌, some, arith, ap, ◌∙◌, inl, inr, ◌≢◌, ◌-◌, ◌*◌, sym, u64_mod, add64,
  Option-cases,
}
use mathlib.Core.Quot
use zab.Timer.{TimerFd, Timer, file_at, wait, tick}
use zab.Timer.Buckets.{Map, Waiter, find}
use zab.Timer.Laws.{Inv, file_new, file_old, wait_files}
use zab.Timer.Rounds.{tick-expire}
use zab.Timer.Abstract.{Sleepers, add, add_comm, sleep_on, amount-above, entries}
use zab.Timer.Abstract.Buckets.{emplace-Same, append_at-Same, amount-expire}

-- A sleep of some nanoseconds on a handle, or that a time is reached.
pub data Happening : Type 0 where
  asleep : (handle nanos : ℕ) → Happening
  reached : (now : ℕ) → Happening

-- What it does, at a time, to the bag.
abbrev pub pass : (time : ℕ) → Happening → Sleepers → Sleepers
pass time (asleep handle nanos) b = add (time + nanos, handle) b
pass time (reached now) b = sleep_on now b

module _ (os : TimerFd) where
  -- Who sleeps.
  abbrev pub sleepers : Timer os → Sleepers
  sleepers t = Quot.mk (entries t.waiting)

  -- A sleep adds the handle at its mark, wherever the service files it.
  pub wait-add :
      (t t' : Timer os) (handle nanos thread here : ℕ)
      → t.current + nanos < u64_mod
      → wait os t handle nanos thread here ≡ some t'
      → (sleepers t' ≡ add (t.current + nanos, handle) (sleepers t)) × (t'.current ≡ t.current)
  unfolding add wait
  wait-add t t' handle nanos thread here small e =
      let mark : add64 t.current nanos ≡ t.current + nanos = omega arith in
      let e' : file_at os t (t.current + nanos) handle nanos thread here ≡ some t' = rw mark at e in
      elim (Option-cases (find (t.current + nanos) t.waiting)) [
        | inl f ↦
            let (w, c, i) = file_new os t t' (t.current + nanos) handle nanos thread here f e' in
            (rw w (Quot.sound (emplace-Same (t.current + nanos) handle here t.waiting)), c)
        | inr (ws, f) ↦
            let (w, c, i) = file_old os t t' (t.current + nanos) handle nanos thread here ws f e' in
            (rw w (Quot.sound (append_at-Same (t.current + nanos) handle thread ws t.waiting f)), c)
      ]

  -- Two sleeps that begin without a round in between leave the same sleepers in either order, whatever
  -- their lengths, threads and callers.
  pub waits_commute :
      (t t1 t2 u1 u2 : Timer os) (a n thread here b k thread' here' : ℕ)
      → t.current + n < u64_mod
      → t.current + k < u64_mod
      → wait os t a n thread here ≡ some t1
      → wait os t1 b k thread' here' ≡ some t2
      → wait os t b k thread' here' ≡ some u1
      → wait os u1 a n thread here ≡ some u2
      → sleepers t2 ≡ sleepers u2
  waits_commute t t1 t2 u1 u2 a n thread here b k thread' here' p q e1 e2 f1 f2 =
      let (s1, c1) = wait-add t t1 a n thread here p e1 in
      let (s2, c2) = wait-add t1 t2 b k thread' here' (omega (arith, c1)) e2 in
      let (r1, d1) = wait-add t u1 b k thread' here' q f1 in
      let (r2, d2) = wait-add u1 u2 a n thread here (omega (arith, d1)) f2 in
      s2
      ∙ ap (λ c. add (c + k, b) (sleepers t1)) c1
      ∙ ap (add (t.current + k, b)) s1
      ∙ add_comm (t.current + k, b) (t.current + n, a) (sleepers t)
      ∙ ap (add (t.current + n, a)) (sym r1)
      ∙ ap (λ c. add (c + n, a) (sleepers u1)) (sym d1)
      ∙ sym r2

  -- A round with `n` expirations keeps those who sleep longer than till the time that it reaches.
  pub tick-sleep_on :
      (t t' : Timer os) (m : ℕ) (ws : List Waiter) (rest : Map) (n : ℕ) (resumed : List Waiter)
      → Inv os t
      → t.waiting ≡ (m, ws) ∷ rest
      → n ≢ 0
      → t.current + (m - t.current) * n < u64_mod
      → tick os t n ≡ some (t', resumed)
      → sleepers t' ≡ sleep_on (t.current + (m - t.current) * n) (sleepers t)
  unfolding sleep_on
  tick-sleep_on t t' m ws rest n resumed inv w h small e =
      let now : ℕ = t.current + (m - t.current) * n in
      let (r, left, inv') = tick-expire os t t' m ws rest n resumed inv w h small e in
      rw left (
        Quot.sound (λ mark h.
          amount-expire now t.current mark h t.waiting inv.ascends
          ∙ sym (amount-above now mark h (entries t.waiting))))

  -- What the service does: a sleep short of the end of the clock, or a round with `n` expirations.
  pub data Step (t : Timer os) : Happening → Timer os → Type 0 where
    waits :
        {t' : Timer os} (handle nanos thread here : ℕ)
        → 0 < nanos
        → t.current + nanos < u64_mod
        → wait os t handle nanos thread here ≡ some t'
        → Step t (asleep handle nanos) t'
    rounds :
        {t' : Timer os} (m : ℕ) (ws : List Waiter) (rest : Map) (n : ℕ) (resumed : List Waiter)
        → t.waiting ≡ (m, ws) ∷ rest
        → n ≢ 0
        → t.current + (m - t.current) * n < u64_mod
        → tick os t n ≡ some (t', resumed)
        → Step t (reached (t.current + (m - t.current) * n)) t'

  -- On a well-formed service, a sleep on any thread and a round do to the bag of its sleepers what
  -- happens to it: the handle is added at the mark it sleeps till, or those go who sleep till the time
  -- that is reached; and the service stays well formed.
  pub Step-pass :
      (t t' : Timer os) (l : Happening)
      → Inv os t
      → Step t l t'
      → (sleepers t' ≡ pass t.current l (sleepers t)) × Inv os t'
  Step-pass t t' l inv (waits handle nanos thread here pos small e) = (
    (wait-add t t' handle nanos thread here small e).0,
    (wait_files os t t' handle nanos thread here inv pos small e).0,
  )
  Step-pass t t' l inv (rounds m ws rest n resumed w h small e) = (
    tick-sleep_on t t' m ws rest n resumed inv w h small e,
    (tick-expire os t t' m ws rest n resumed inv w h small e).2,
  )
