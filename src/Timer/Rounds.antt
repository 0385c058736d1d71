-- ===== src/Timer/Rounds.antt =====
-- What the rounds of `run` resume, and when.
use zab.Prelude.{
  ℕ, zero, suc, ◌+◌, ◌-◌, ◌*◌, ◌<◌, ◌≡◌, ◌≢◌, refl, List, [], ◌∷◌, ◌++◌, Option, some, arith, ap,
  ◌∙◌, u64_mod, add64, mul64, sub64, subst, length,
}
use zab.Timer.Buckets.{
  Map, Waiter, expire, Ascends, Bounded, flat, expire-flat, due, expire-due, expire-Ascends,
  expire-Bounded, expire-first,
}
use zab.Timer.{Spec, TimerFd, to_spec, to_nanos, Timer, change_timer, rearm, tick, run}
use zab.Timer.Laws.{Armed, to_nanos-to_spec, Inv, rearm_lem, tick_lem}

abbrev pub ones : ℕ → List (Option ℕ)
ones zero = []
ones (suc k) = some 1 ∷ ones k

module _ (os : TimerFd) where
  open os use {Fd, settime, interval}

  -- The time that a round reaches.
  reached :
      (t : Timer os) (m : ℕ) (ws : List Waiter) (rest : Map) (n : ℕ) (s : Spec)
      → Inv os t
      → t.waiting ≡ (m, ws) ∷ rest
      → t.current + (m - t.current) * n < u64_mod
      → interval t.fd ≡ some s
      → add64 t.current (mul64 (to_nanos s) n) ≡ t.current + (m - t.current) * n
  reached t m ws rest n s inv w small i =
      let armed : interval t.fd ≡ some (to_spec (m - t.current)) =
        subst (λ l. Armed l t.current (interval t.fd)) w inv.armed in
      let below : (m < u64_mod) × Bounded u64_mod rest = subst (Bounded u64_mod) w inv.bounded in
      let is_set : s ≡ to_spec (m - t.current) = cc in
      let exact : to_nanos s ≡ m - t.current =
        rw is_set (to_nanos-to_spec (m - t.current) (omega (arith, below.0))) in
      rw exact (omega arith)

  -- What a round takes from the map and leaves in it.
  pub tick-expire :
      (t t' : Timer os) (m : ℕ) (ws : List Waiter) (rest : Map) (n : ℕ) (resumed : List Waiter)
      → Inv os t
      → t.waiting ≡ (m, ws) ∷ rest
      → n ≢ 0
      → t.current + (m - t.current) * n < u64_mod
      → tick os t n ≡ some (t', resumed)
      → (resumed ≡ (expire (t.current + (m - t.current) * n) t.waiting).0)
        × (t'.waiting ≡ (expire (t.current + (m - t.current) * n) t.waiting).1)
        × Inv os t'
  tick-expire t t' m ws rest n resumed inv w h small e =
      let (s, i, (r, re)) = tick_lem os t t' n resumed h inv e in
      let at = reached t m ws rest n s inv w small i in
      let now : ℕ = t.current + (m - t.current) * n in
      let (inv', left) =
        rearm_lem os (expire now t.waiting).1 now t.fd t'
          (expire-Ascends now t.waiting t.current (omega arith) inv.ascends)
          (expire-Bounded now t.waiting u64_mod inv.bounded) (rw at at re) in
      (r ∙ ap (λ x. (expire x t.waiting).0) at, left, inv')

  -- With the earliest mark `m` and `n` expirations the service reaches the time
  -- `current + (m - current) * n`; short of the end of the clock, a round that does not abort resumes
  -- those who sleep till then, in the order of their marks and within a mark in the order of their
  -- calls, keeps the others, who all sleep longer, and is armed for the earliest of these.
  pub tick_resumes :
      (t t' : Timer os) (m : ℕ) (ws : List Waiter) (rest : Map) (n : ℕ) (resumed : List Waiter)
      → Inv os t
      → t.waiting ≡ (m, ws) ∷ rest
      → n ≢ 0
      → t.current + (m - t.current) * n < u64_mod
      → tick os t n ≡ some (t', resumed)
      → (resumed ≡ due (t.current + (m - t.current) * n) t.waiting)
        × (flat t.waiting ≡ resumed ++ flat t'.waiting)
        × Ascends (t.current + (m - t.current) * n) t'.waiting
        × Inv os t'
  tick_resumes t t' m ws rest n resumed inv w h small e =
      let now : ℕ = t.current + (m - t.current) * n in
      let (r, left, inv') = tick-expire t t' m ws rest n resumed inv w h small e in
      (
        r ∙ expire-due now t.current t.waiting inv.ascends,
        rw (r, left) (expire-flat now t.waiting),
        rw left (expire-Ascends now t.waiting t.current (omega arith) inv.ascends),
        inv',
      )

  rearm-some :
      (left : Map) (now : ℕ) (fd : Fd)
      → ((fd : Fd) (s : Spec) → (fd' : Fd) × (settime fd s ≡ some fd'))
      → (t' : Timer os) × (rearm os left now fd ≡ some t')
  unfolding rearm change_timer
  rearm-some [] now fd ok =
      let (fd', e) = ok fd (record { sec = 0; nsec = 0 }) in
      (record { waiting = []; current = 0; fd = fd' }, rw (e, rearm) refl)
  rearm-some ((m, ws) ∷ rest) now fd ok =
      let (fd', e) = ok fd (to_spec (sub64 m now)) in
      (record { waiting = (m, ws) ∷ rest; current = now; fd = fd' }, ground arith)

  tick_one :
      (t t' : Timer os) (s : Spec) (now : ℕ) (out : List Waiter) (left : Map)
      → interval t.fd ≡ some s
      → add64 t.current (mul64 (to_nanos s) 1) ≡ now
      → expire now t.waiting ≡ (out, left)
      → rearm os left now t.fd ≡ some t'
      → tick os t 1 ≡ some (t', out)
  unfolding tick
  tick_one t t' s now out left i n x r = ground arith

  -- One expiration at the earliest mark.
  tick_first :
      (t : Timer os) (m : ℕ) (ws : List Waiter) (rest : Map)
      → ((fd : Fd) (s : Spec) → (fd' : Fd) × (settime fd s ≡ some fd'))
      → Inv os t
      → t.waiting ≡ (m, ws) ∷ rest
      → (t' : Timer os) × (tick os t 1 ≡ some (t', ws)) × (t'.waiting ≡ rest) × Inv os t'
  tick_first t m ws rest ok inv w =
      let armed : interval t.fd ≡ some (to_spec (m - t.current)) =
        subst (λ l. Armed l t.current (interval t.fd)) w inv.armed in
      let below : (m < u64_mod) × Bounded u64_mod rest = subst (Bounded u64_mod) w inv.bounded in
      let order : (t.current < m) × Ascends m rest = subst (Ascends t.current) w inv.ascends in
      let now : add64 t.current (mul64 (to_nanos (to_spec (m - t.current))) 1) ≡ m =
        reached t m ws rest 1 (to_spec (m - t.current)) inv w (omega (arith, below.0, order.0))
          armed
        ∙ omega (arith, order.0) in
      let split : expire m t.waiting ≡ (ws, rest) = rw w (expire-first m ws rest order.1) in
      let (t', r) = rearm-some rest m t.fd ok in
      let (inv', left) = rearm_lem os rest m t.fd t' order.1 below.1 r in
      (t', tick_one t t' (to_spec (m - t.current)) m ws rest armed now split r, left, inv')

  -- If the kernel's timer takes every setting, the service that is armed and gets one expiration for
  -- each mark resumes every waiter, in the order of the marks and within a mark in the order of the
  -- calls, and nobody waits any more.
  pub drain :
      (ok : (fd : Fd) (s : Spec) → (fd' : Fd) × (settime fd s ≡ some fd')) (map : Map)
      (t : Timer os)
      → Inv os t
      → t.waiting ≡ map
      → (t' : Timer os) × (run os t (ones (length map)) ≡ some (t', flat map)) × (t'.waiting ≡ [])
  unfolding run
  drain ok [] t inv w = (t, refl, w)
  drain ok ((m, ws) ∷ rest) t inv w =
      let (t', e, left, inv') = tick_first t m ws rest ok inv w in
      let (t'', e', none_left) = drain ok rest t' inv' left in
      (t'', rw (e, run, e') refl, none_left)
