-- ===== src/SimpleFuture/Run.antt =====
-- Coroutines that await one another compute what the functions would, and free their frames.
use zab.Prelude.{
  ℕ, suc, ◌+◌, ◌≤◌, ◌<◌, ◌≡◌, ◌≢◌, ◌==◌, true, none, some, [], ◌∷◌, ◌++◌, refl, arith, ap, sym, ◌∙◌,
  ltb, Bool-cases, ==→≡, ==→≢, ≢→==, ==-self, inl, inr, subst, append-nil,
}
use zab.SimpleFuture.{
  Body, returns, awaits, nothing, coroutine, event, Code, runs, resumes, over, Frame, Heap,
  new_frame, put, call, running, executes, finish, act, step, then_run, run, start, value, steps,
}

module _ {A : Type 0} where
  run-step : (h h' : Heap A) (m : ℕ) → step h ≡ some h' → run (suc m) h ≡ run m h'
  unfolding run
  run-step h h' m e = ap (then_run (run m)) e

  step-act :
      (h : Heap A) (c : ℕ) (f : Frame A) (k : Code A)
      → h.current ≡ some c
      → h.store c ≡ some f
      → f.code ≡ k
      → step h ≡ act h c f k
  unfolding step
  step-act h c f k q p e = rw (q, p, e) refl

  -- The frame of a coroutine at its end.
  abbrev pub ended : A → Frame A
  ended v = record { underlying = nothing; complete = true; content = some v; code = over }

  -- The run of a coroutine `c` with the body `b` from `h`.
  pub record Ran (h : Heap A) (c : ℕ) (f : Frame A) (b : Body A) : Type 0 where
    pub fin : Heap A
    pub result : (m : ℕ) → run (steps b + m) h ≡ run m fin
    pub grows : h.next ≤ fin.next
    pub same : (a : ℕ) → a < h.next → a ≢ c → fin.store a ≡ h.store a
    pub freed : (a : ℕ) → h.next ≤ a → a < fin.next → fin.store a ≡ none
    pub done : fin.store c ≡ some (ended (value b))
    pub goes_on : fin.current ≡ running f.underlying
    pub tells : fin.executed ≡ h.executed ++ executes f.underlying

  steps-returns : (v : A) (m : ℕ) → steps (returns v) + m ≡ suc m
  unfolding steps
  steps-returns v m = omega arith

  steps-awaits :
      (child : Body A) (then_ : A → Body A) (m : ℕ)
      → steps (awaits child then_) + m ≡ suc (steps child + suc (steps (then_ (value child)) + m))
  unfolding steps
  steps-awaits child then_ m = omega arith

  value-awaits :
      (child : Body A) (then_ : A → Body A)
      → value (awaits child then_) ≡ value (then_ (value child))
  unfolding value
  value-awaits child then_ = refl

  value-returns : (v : A) → value (returns v) ≡ v
  unfolding value
  value-returns v = refl

  returns-Ran :
      (h : Heap A) (c : ℕ) (f : Frame A) (v : A)
      → h.current ≡ some c
      → h.store c ≡ some f
      → f.code ≡ runs (returns v)
      → Ran h c f (returns v)
  returns-Ran h c f v q p e = record {
    fin = finish h c f v;
    result = λ m.
        ap (λ k. run k h) (steps-returns v m)
        ∙ run-step h _ m (step-act h c f (runs (returns v)) q p e);
    grows = omega arith;
    same = λ a low n. rw (≢→== c a (λ x. n (sym x))) refl;
    freed = λ a low high. absurd (omega arith);
    done = rw (==-self c, value-returns v) refl;
    goes_on = refl;
    tells = refl;
  }

  -- The awaiting coroutine goes on, with the frame of the one that ended gone.
  pub record Resumed (h : Heap A) (c a : ℕ) (f : Frame A) (b : Body A) (h' : Heap A) : Type 0 where
    pub stepped : step h ≡ some h'
    pub code : h'.store c ≡ some (record f { code = runs b })
    pub gone : h'.store a ≡ none
    pub others : (i : ℕ) → i ≢ c → i ≢ a → h'.store i ≡ h.store i

  resumes-Resumed :
      (h : Heap A) (c a : ℕ) (f : Frame A) (then_ : A → Body A) (v : A)
      → a ≢ c
      → h.current ≡ some c
      → h.store c ≡ some f
      → f.code ≡ resumes a then_
      → h.store a ≡ some (ended v)
      → Resumed h c a f (then_ v) (put (put h a none) c (some (record f { code = runs (then_ v) })))
  resumes-Resumed h c a f then_ v n q p e g = record {
    stepped = step-act h c f (resumes a then_) q p e ∙ rw g refl;
    code = rw (==-self c) refl;
    gone = rw (≢→== c a (λ x. n (sym x)), ==-self a) refl;
    others = λ i m k. rw (≢→== c i (λ x. m (sym x)), ≢→== a i (λ x. k (sym x))) refl;
  }

  -- The frame of the one that awaits, and the heap in which it goes on.
  abbrev await_frame : Frame A → ℕ → (A → Body A) → Frame A
  await_frame f a then_ = record f { code = resumes a then_ }

  abbrev child_frame : Body A → ℕ → Frame A
  child_frame child c = record (new_frame child) { underlying = coroutine c }

  abbrev back : Heap A → ℕ → ℕ → Frame A → Body A → Heap A
  back h a c f b = put (put h a none) c (some (record f { code = runs b }))

  module _ (child : Body A) (then_ : A → Body A) (h : Heap A) (c : ℕ) (f : Frame A)
      (low : c < h.next) where
    called-others : (i : ℕ) → i ≢ h.next → i ≢ c → (call h c f child then_).store i ≡ h.store i
    called-others i n k = rw (≢→== h.next i (λ x. n (sym x)), ≢→== c i (λ x. k (sym x))) refl

    module _ (first : Ran (call h c f child then_) h.next (child_frame child c) child) where
      kept : first.fin.store c ≡ some (await_frame f h.next then_)
      kept =
          first.same c (omega arith) (λ x. omega arith)
          ∙ rw (≢→== h.next c (λ x. omega arith), ==-self c) refl

      returned :
          Resumed first.fin c h.next
            (await_frame f h.next then_)
            (then_ (value child))
            (back first.fin h.next c f (then_ (value child)))
      returned =
          resumes-Resumed first.fin c h.next (await_frame f h.next then_) then_ (value child)
            (λ x. omega arith) first.goes_on kept refl first.done

      awaits-Ran :
          h.current ≡ some c
          → h.store c ≡ some f
          → f.code ≡ runs (awaits child then_)
          → Ran
              (back first.fin h.next c f (then_ (value child)))
              c
              (record f { code = runs (then_ (value child)) })
              (then_ (value child))
          → Ran h c f (awaits child then_)
      awaits-Ran q p e second = record {
        fin = second.fin;
        result = λ m.
            ap (λ k. run k h) (steps-awaits child then_ m)
            ∙ run-step h _ (steps child + suc (steps (then_ (value child)) + m))
                (step-act h c f (runs (awaits child then_)) q p e)
            ∙ first.result (suc (steps (then_ (value child)) + m))
            ∙ run-step first.fin _ (steps (then_ (value child)) + m) returned.stepped
            ∙ second.result m;
        grows = omega (arith, first.grows, second.grows);
        same = λ i below n.
            second.same i (omega (arith, first.grows)) n
            ∙ returned.others i n (λ x. omega arith)
            ∙ first.same i (omega arith) (λ x. omega arith)
            ∙ called-others i (λ x. omega arith) n;
        freed = λ i above below. elim (Bool-cases (ltb i first.fin.next)) [
          | inl z ↦
              second.same i (ground arith) (λ x. omega arith) ∙ elim (Bool-cases (h.next == i)) [
                | inl y ↦
                    subst (λ j. (back first.fin h.next c f (then_ (value child))).store j ≡ none)
                      (==→≡ h.next i y) returned.gone
                | inr y ↦
                    returned.others i (λ x. omega arith) (λ x. ==→≢ h.next i y (sym x))
                    ∙ first.freed i (omega (arith, ==→≢ h.next i y)) (ground arith)
              ]
          | inr z ↦ second.freed i (ground arith) below
        ];
        done = second.done ∙ ap (λ x. some (ended x)) (sym (value-awaits child then_));
        goes_on = second.goes_on;
        tells =
            second.tells
            ∙ ap (λ l. l ++ executes f.underlying) (first.tells ∙ append-nil h.executed);
      }

  -- Every coroutine runs to its end.
  pub body-Ran :
      (b : Body A) (h : Heap A) (c : ℕ) (f : Frame A)
      → c < h.next
      → h.current ≡ some c
      → h.store c ≡ some f
      → f.code ≡ runs b
      → Ran h c f b
  body-Ran (returns v) h c f low q p e = returns-Ran h c f v q p e
  body-Ran (awaits child then_) h c f low q p e =
      let first =
        body-Ran child (call h c f child then_) h.next (child_frame child c) (omega arith) refl
          (rw (==-self h.next) refl) refl in
      awaits-Ran child then_ h c f low first q p e (
        body-Ran (then_ (value child)) (back first.fin h.next c f (then_ (value child))) c
          (record f { code = runs (then_ (value child)) }) (omega (arith, first.grows))
          first.goes_on (returned child then_ h c f low first).code refl)

  -- A coroutine started with an event runs, in a number of steps that its body tells, to its end: its
  -- result is what the bodies compute as functions that call one another, the event has been executed
  -- once, nothing runs on, and of all frames that were made its own is the only one left.
  pub computes_value :
      (body : Body A) (e : ℕ)
      → (fin : Heap A) × (run (steps body) (start body e) ≡ some fin)
        × (fin.store 0 ≡ some (ended (value body)))
        × (fin.executed ≡ e ∷ [])
        × (fin.current ≡ none)
        × ((a : ℕ) → 1 ≤ a → a < fin.next → fin.store a ≡ none)
  unfolding run
  computes_value body e =
      let r =
        body-Ran body (start body e) 0 (record (new_frame body) { underlying = event e })
          (omega arith) refl refl refl in
      (
        r.fin,
        subst (λ n. run n (start body e) ≡ some r.fin) (omega arith) (r.result 0),
        r.done,
        r.tells,
        r.goes_on,
        r.freed,
      )
