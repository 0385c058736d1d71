-- ===== src/Timer/Laws.antt =====
-- What the timer service promises its sleepers.
use zab.Prelude.{
  ℕ, ◌+◌, ◌-◌, ◌<◌, ◌≡◌, ◌≢◌, refl, ◌==◌, ltb, List, [], ◌∷◌, ◌++◌, Option, none, some,
  if◌then◌else◌, arith, ◌∙◌, Bool-cases, inl, inr, u64_mod, add64, mul64, sub64, subst,
  Option-cases, ==-self,
}
use mathlib.Core.Option.{some-injective}
use zab.Timer.Buckets.{
  Map, Waiter, find, emplace, append_at, begins_with, expire, Ascends, Bounded, emplace-Ascends,
  append_at-Ascends, emplace-Bounded, append_at-Bounded, find-emplace, find-append_at,
}
use zab.Timer.{Spec, TimerFd, to_spec, to_nanos, Timer, change_timer, file_at, wait, rearm, tick}

-- What is set on the kernel's timer comes back.
pub to_nanos-to_spec : (d : ℕ) → d < u64_mod → to_nanos (to_spec d) ≡ d
to_nanos-to_spec d h = omega arith

-- The timer's interval is the time left to the earliest mark.
abbrev pub Armed : Map → ℕ → Option Spec → Type 0
Armed [] current i = Unit
Armed ((m, ws) ∷ rest) current i = i ≡ some (to_spec (m - current))

emplace-Armed :
    (k : ℕ) (v : List Waiter) (map : Map) (current : ℕ) (i : Option Spec)
    → find k map ≡ none
    → Armed map current i
    → Armed
        (emplace k v map)
        current
        (if begins_with k (emplace k v map) then some (to_spec (k - current)) else i)
unfolding emplace find begins_with
emplace-Armed k v [] current i f a = rw (==-self k)
emplace-Armed k v ((m, ws) ∷ rest) current i f a = elim (Bool-cases (ltb k m)) [
  | inl h ↦ rw (h, ==-self k)
  | inr h ↦ rw h (ground arith)
]

append_at-Armed :
    (k : ℕ) (w : Waiter) (map : Map) (current : ℕ) (i : Option Spec)
    → Armed map current i
    → Armed (append_at k w map) current i
unfolding append_at
append_at-Armed k w [] current i a = tt
append_at-Armed k w ((m, ws) ∷ rest) current i a = elim (Bool-cases (m == k)) [
  | inl h ↦ rw h a
  | inr h ↦ rw h a
]

module _ (os : TimerFd) where
  open os use {Fd, settime, interval, interval-settime}

  pub record Inv (t : Timer os) : Type 0 where
    pub ascends : Ascends t.current t.waiting
    pub bounded : Bounded u64_mod t.waiting
    pub armed : Armed t.waiting t.current (interval t.fd)

  -- What a successful `change_timer` leaves.
  change_timer_lem :
      (t t' : Timer os) (nanos : ℕ)
      → change_timer os t nanos ≡ some t'
      → (t'.waiting ≡ t.waiting)
        × (t'.current ≡ t.current)
        × (interval t'.fd ≡ some (to_spec nanos))
  unfolding change_timer
  change_timer_lem t t' nanos e = elim (Option-cases (settime t.fd (to_spec nanos))) [
    | inl n ↦ ground (arith, n)
    | inr (fd, s) ↦ ground (arith, interval-settime t.fd fd (to_spec nanos))
  ]

  pub rearm_lem :
      (left : Map) (now : ℕ) (fd : Fd) (t' : Timer os)
      → Ascends now left
      → Bounded u64_mod left
      → rearm os left now fd ≡ some t'
      → Inv t' × (t'.waiting ≡ left)
  unfolding rearm
  rearm_lem [] now fd t' a b e = elim (Option-cases (settime fd (record { sec = 0; nsec = 0 }))) [
    | inl n ↦ ground (arith, n)
    | inr (fd', s) ↦
        subst (λ (x : Timer os). Inv x × (x.waiting ≡ []))
          (some-injective (record { waiting = []; current = 0; fd = fd' }) t' (rw (s, rearm) at e))
          (record { ascends = tt; bounded = tt; armed = tt }, refl)
  ]
  rearm_lem ((m, ws) ∷ rest) now fd t' a b e =
      let t : Timer os = record { waiting = (m, ws) ∷ rest; current = now; fd = fd } in
      let (w, c, i) = change_timer_lem t t' (sub64 m now) e in
      let exact : sub64 m now ≡ m - now = omega arith in
      (record { ascends = rw (w, c) a; bounded = rw w b; armed = rw (w, c) (rw exact at i) }, w)

  -- A new mark.
  pub file_new :
      (t t' : Timer os) (mark handle nanos thread here : ℕ)
      → find mark t.waiting ≡ none
      → file_at os t mark handle nanos thread here ≡ some t'
      → let filed = emplace mark ((handle, here) ∷ []) t.waiting in
        (t'.waiting ≡ filed)
        × (t'.current ≡ t.current)
        × (interval t'.fd
            ≡ (if begins_with mark filed then some (to_spec nanos) else interval t.fd))
  unfolding file_at
  file_new t t' mark handle nanos thread here f e =
      let filed : Map = emplace mark ((handle, here) ∷ []) t.waiting in
      let e' : (if begins_with mark filed
            then change_timer os (record t { waiting = filed }) nanos
            else some (record t { waiting = filed }))
          ≡ some t' =
        rw (f, file_at) at e in
      elim (Bool-cases (begins_with mark filed)) [
        | inl b ↦ rw b (change_timer_lem (record t { waiting = filed }) t' nanos (rw b at e'))
        | inr b ↦ rw b (ground (arith, e'))
      ]

  -- A mark that others sleep till.
  pub file_old :
      (t t' : Timer os) (mark handle nanos thread here : ℕ) (ws : List Waiter)
      → find mark t.waiting ≡ some ws
      → file_at os t mark handle nanos thread here ≡ some t'
      → (t'.waiting ≡ append_at mark (handle, thread) t.waiting)
        × (t'.current ≡ t.current)
        × (t'.fd ≡ t.fd)
  unfolding file_at
  file_old t t' mark handle nanos thread here ws f e = ground (arith, f, e)

  file_Inv :
      (t t' : Timer os) (mark handle nanos thread here : ℕ)
      → Inv t
      → t.current < mark
      → mark < u64_mod
      → nanos ≡ mark - t.current
      → file_at os t mark handle nanos thread here ≡ some t'
      → Inv t'
  file_Inv t t' mark handle nanos thread here inv low high d e =
      elim (Option-cases (find mark t.waiting)) [
        | inl f ↦
            let (w, c, i) = file_new t t' mark handle nanos thread here f e in
            record {
              ascends = rw (w, c) (emplace-Ascends t.current mark _ t.waiting low f inv.ascends);
              bounded = rw w (emplace-Bounded u64_mod mark _ t.waiting high inv.bounded);
              armed =
                  rw (w, c, i, d)
                    (emplace-Armed mark _ t.waiting t.current (interval t.fd) f inv.armed);
            }
        | inr (ws, f) ↦
            let (w, c, i) = file_old t t' mark handle nanos thread here ws f e in
            record {
              ascends = rw (w, c) (append_at-Ascends t.current mark _ t.waiting inv.ascends);
              bounded = rw w (append_at-Bounded u64_mod mark _ t.waiting inv.bounded);
              armed =
                  rw (w, c, i)
                    (append_at-Armed mark _ t.waiting t.current (interval t.fd) inv.armed);
            }
      ]

  -- The bucket that a handle goes to.
  abbrev pub joined : Option (List Waiter) → (handle thread here : ℕ) → List Waiter
  joined none handle thread here = (handle, here) ∷ []
  joined (some ws) handle thread here = ws ++ ((handle, thread) ∷ [])

  file_find :
      (t t' : Timer os) (mark handle nanos thread here : ℕ)
      → file_at os t mark handle nanos thread here ≡ some t'
      → (j : ℕ)
      → find j t'.waiting ≡ (
          if mark == j
          then some (joined (find mark t.waiting) handle thread here)
          else find j t.waiting)
  file_find t t' mark handle nanos thread here e j = elim (Option-cases (find mark t.waiting)) [
    | inl f ↦
        rw ((file_new t t' mark handle nanos thread here f e).0, f)
          (find-emplace j mark ((handle, here) ∷ []) t.waiting f)
    | inr (ws, f) ↦
        rw ((file_old t t' mark handle nanos thread here ws f e).0, f)
          (find-append_at j mark (handle, thread) t.waiting f)
  ]

  -- The service is armed for its earliest mark; a sleep of `nanos`, not 0 and short of the end of the
  -- clock, on a handle keeps that, and files the handle under the mark `current + nanos`: behind those
  -- that sleep till then already, on the thread asked for, or, as the first of them, on the thread
  -- that makes the call. Whoever sleeps till another mark is left alone.
  pub wait_files :
      (t t' : Timer os) (handle nanos thread here : ℕ)
      → Inv t
      → 0 < nanos
      → t.current + nanos < u64_mod
      → wait os t handle nanos thread here ≡ some t'
      → Inv t'
        × ((k : ℕ)
            → find k t'.waiting ≡ (
                if t.current + nanos == k
                then some (joined (find (t.current + nanos) t.waiting) handle thread here)
                else find k t.waiting))
  unfolding wait
  wait_files t t' handle nanos thread here inv pos small e =
      let mark : add64 t.current nanos ≡ t.current + nanos = omega arith in
      let e' : file_at os t (t.current + nanos) handle nanos thread here ≡ some t' = rw mark at e in
      (
        file_Inv t t' (t.current + nanos) handle nanos thread here inv (omega arith) small
            (omega arith) e',
        file_find t t' (t.current + nanos) handle nanos thread here e',
      )

  -- The marks that a round leaves are above the time that it reached.
  pub tick_lem :
      (t t' : Timer os) (n : ℕ) (resumed : List Waiter)
      → n ≢ 0
      → Inv t
      → tick os t n ≡ some (t', resumed)
      → (s : Spec) × (interval t.fd ≡ some s)
        × (let now = add64 t.current (mul64 (to_nanos s) n) in
            (resumed ≡ (expire now t.waiting).0)
            × (rearm os (expire now t.waiting).1 now t.fd ≡ some t'))
  unfolding tick
  tick_lem t t' n resumed h inv e = elim (Option-cases (interval t.fd)) [
    | inl f ↦ ground (arith, f, e)
    | inr (s, f) ↦
        let now : ℕ = add64 t.current (mul64 (to_nanos s) n) in
        (
          s,
          f,
          elim (Option-cases (rearm os (expire now t.waiting).1 now t.fd)) [
            | inl r ↦ ground (arith, f, r, e)
            | inr (t'', r) ↦ (ground (arith, f, r, e), r ∙ ground (arith, f, r, e))
          ],
        )
  ]
