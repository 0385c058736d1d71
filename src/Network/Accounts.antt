-- ===== src/Network/Accounts.antt =====
-- Who owns a descriptor.
use zab.Prelude.{
  ℕ, ◌+◌, ◌^◌, ◌<◌, ◌≡◌, ◌≢◌, ◌==◌, refl, List, [], ◌∷◌, Option, none, some, if◌then◌else◌, arith,
  update, count, count-append, total, total-update, total-zero, Bool-cases, Option-cases, inl, inr,
  ==→≢, ≢→==, ap,
}
use zab.Network.{
  NetworkOperation, Background, empty, owner, is_valid, background_close, background_cancel, reset,
  move, move_assign, set_descriptor, close_resume,
}
use zab.Network.Ownership.{
  Command, construct, move_construct, assign, set, close, destroy, World, step, run, Below,
  AllBelow, fresh,
}

-- Whether an object owns the descriptor `d`.
abbrev pub owns : ℕ → Option NetworkOperation → ℕ
owns d none = 0
owns d (some o) = if d == o.sd then 1 else 0

module _ (d : ℕ) (valid : d < 2 ^ 31) where
  reset_lem :
      (o : NetworkOperation) (b : Background)
      → (count d (reset o b).1.closing ≡ count d b.closing + owns d (some o))
        × (owns d (some (reset o b).0) ≡ 0)
  unfolding reset background_close background_cancel
  reset_lem o b = ground (arith, count-append d b.closing (o.sd ∷ []))

  set_lem :
      (o : NetworkOperation) (sd : ℕ) (b : Background)
      → count d (set_descriptor o sd b).1.closing + owns d (some (set_descriptor o sd b).0)
        ≡ count d b.closing + owns d (some o) + count d (sd ∷ [])
  unfolding set_descriptor background_close
  set_lem o sd b = ground (arith, count-append d b.closing (o.sd ∷ []))

  -- Every time that `d` was handed over it has an owner, or has been closed, or is left to be.
  pub IsAccounted : ℕ → World → Type 0
  IsAccounted n w =
      total (owns d) n w.objects + (count d w.background.closing + count d w.closed)
      ≡ count d w.given

  total-update_two :
      (n : ℕ) (held : ℕ → Option NetworkOperation) (i j : ℕ) (x y : Option NetworkOperation)
      → i < n
      → j < n
      → i ≢ j
      → total (owns d) n (update (update held i x) j y) + (owns d (held i) + owns d (held j))
        ≡ total (owns d) n held + (owns d x + owns d y)
  total-update_two n held i j x y hi hj ne =
      let skip : owns d (update held i x j) ≡ owns d (held j) = rw (≢→== i j ne) refl in
      omega (
        arith,
        total-update (owns d) n held i x hi,
        total-update (owns d) n (update held i x) j y hj,
        skip,
      )

  module _ (n : ℕ) (w : World) (a : IsAccounted n w) where
    construct-IsAccounted : (i sd : ℕ) → i < n → IsAccounted n (step w (construct i sd))
    unfolding IsAccounted step
    construct-IsAccounted i sd h = elim (Option-cases (w.objects i)) [
      | inl e ↦
          rw (e, step)
            (omega (
              arith,
              a,
              total-update (owns d) n w.objects i (some (owner sd)) h,
              ap (owns d) e,
              count-append d w.given (sd ∷ []),
            ))
      | inr (o, e) ↦ rw (e, step) a
    ]

    move_construct-IsAccounted :
        (i from : ℕ) → i < n → from < n → IsAccounted n (step w (move_construct i from))
    unfolding IsAccounted step move
    move_construct-IsAccounted i from hi hf = elim (Option-cases (w.objects i)) [
      | inr (o, e) ↦ rw (e, step) a
      | inl e ↦ elim (Option-cases (w.objects from)) [
        | inl f ↦ rw (e, f, step) a
        | inr (o, f) ↦
            rw (e, f, step)
              (omega (
                arith,
                a,
                total-update_two n w.objects i from (some o) (some empty) hi hf (λ q. cc),
                ap (owns d) e,
                ap (owns d) f,
                no_owner,
              ))
      ]
    ]
      where
        no_owner : owns d (some empty) ≡ 0
        no_owner = ground arith

    assign-IsAccounted : (i from : ℕ) → i < n → from < n → IsAccounted n (step w (assign i from))
    unfolding IsAccounted step move_assign
    assign-IsAccounted i from hi hf = elim (Bool-cases (i == from)) [
      | inl same ↦ rw (same, step) a
      | inr other ↦ elim (Option-cases (w.objects i)) [
        | inl e ↦ rw (other, e, step) a
        | inr (to, e) ↦ elim (Option-cases (w.objects from)) [
          | inl f ↦ rw (other, e, f, step) a
          | inr (o, f) ↦
              rw (other, e, f, step)
                (omega (
                  arith,
                  a,
                  total-update_two n w.objects i from (some o) (some (reset to w.background).0) hi
                      hf (==→≢ i from other),
                  ap (owns d) e,
                  ap (owns d) f,
                  reset_lem to w.background,
                ))
        ]
      ]
    ]

    set-IsAccounted : (i sd : ℕ) → i < n → IsAccounted n (step w (set i sd))
    unfolding IsAccounted step
    set-IsAccounted i sd h = elim (Option-cases (w.objects i)) [
      | inl e ↦ rw (e, step) a
      | inr (o, e) ↦
          rw (e, step)
            (omega (
              arith,
              a,
              total-update (owns d) n w.objects i (some (set_descriptor o sd w.background).0) h,
              ap (owns d) e,
              set_lem o sd w.background,
              count-append d w.given (sd ∷ []),
            ))
    ]

    close-IsAccounted : (i result : ℕ) → i < n → IsAccounted n (step w (close i result))
    unfolding IsAccounted step close_resume
    close-IsAccounted i result h = elim (Option-cases (w.objects i)) [
      | inl e ↦ rw (e, step) a
      | inr (o, e) ↦ elim (Bool-cases (is_valid o.sd)) [
        | inr invalid ↦ rw (e, invalid, step) a
        | inl v ↦
            rw (e, v, step)
              (ground (
                arith,
                a,
                total-update (owns d) n w.objects i (some (close_resume o result).0) h,
                ap (owns d) e,
                count-append d w.closed (o.sd ∷ []),
              ))
      ]
    ]

    destroy-IsAccounted : (i : ℕ) → i < n → IsAccounted n (step w (destroy i))
    unfolding IsAccounted step
    destroy-IsAccounted i h = elim (Option-cases (w.objects i)) [
      | inl e ↦ rw (e, step) a
      | inr (o, e) ↦
          rw (e, step)
            (omega (
              arith,
              a,
              total-update (owns d) n w.objects i none h,
              ap (owns d) e,
              reset_lem o w.background,
            ))
    ]

  step-IsAccounted :
      (n : ℕ) (w : World) (c : Command) → Below n c → IsAccounted n w → IsAccounted n (step w c)
  step-IsAccounted n w (construct i sd) h a = construct-IsAccounted n w a i sd h
  step-IsAccounted n w (move_construct i from) h a = move_construct-IsAccounted n w a i from h.0 h.1
  step-IsAccounted n w (assign i from) h a = assign-IsAccounted n w a i from h.0 h.1
  step-IsAccounted n w (set i sd) h a = set-IsAccounted n w a i sd h
  step-IsAccounted n w (close i result) h a = close-IsAccounted n w a i result h
  step-IsAccounted n w (destroy i) h a = destroy-IsAccounted n w a i h

  run-IsAccounted :
      (n : ℕ) (w : World) (commands : List Command)
      → AllBelow n commands
      → IsAccounted n w
      → IsAccounted n (run w commands)
  unfolding run
  run-IsAccounted n w [] h a = a
  run-IsAccounted n w (c ∷ commands) h a =
      run-IsAccounted n (step w c) commands h.1 (step-IsAccounted n w c h.0 a)

  -- Objects are constructed, moved, assigned, given other descriptors, closed and destroyed in any
  -- order, and a valid descriptor is handed to them any number of times. Each time is accounted for
  -- exactly once: an object that is alive owns it, or it is left to be closed in the background, or
  -- `close` has closed it.
  pub accounted_once :
      (n : ℕ) (commands : List Command)
      → AllBelow n commands
      → (let w = run fresh commands in
          total (owns d) n w.objects + (count d w.background.closing + count d w.closed)
          ≡ count d w.given)
  unfolding IsAccounted
  accounted_once n commands h = run-IsAccounted n fresh commands h (start n)
    where
      start : (n : ℕ) → IsAccounted n fresh
      start n = omega (arith, total-zero (owns d) n (λ i. none) (λ i. refl))
