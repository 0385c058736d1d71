-- ===== src/SignalHandler/Filing.antt =====
-- Which handlers are filed, and when a signal is caught.
use zab.Prelude.{
  ℕ, suc, ◌≡◌, ◌≢◌, ≢→==, ◌==◌, true, List, [], ◌∷◌, ◌++◌, refl, arith, ap, sym, ◌∙◌, update,
  length, if◌then◌else◌, Bool-cases, ==→≡, ==→≢, ==-self, inl, inr, append_assoc, append-nil,
}
use zab.SignalHandler.{SignalHandler, create, handle}

-- A call of `handle`: the signal, what signal(2) returns, the thread and the functor.
pub record Call (F : Type 0) : Type 0 where
  pub signal : ℕ
  pub previous : ℕ
  pub thread : ℕ
  pub functor : F

module _ {F : Type 0} where
  pub handle_all : SignalHandler F → List (Call F) → SignalHandler F
  handle_all s [] = s
  handle_all s (c ∷ cs) = handle_all (handle s c.signal c.previous c.thread c.functor).0 cs

  -- The calls for one signal, in order.
  pub filed_for : ℕ → List (Call F) → List (ℕ × F)
  filed_for signal [] = []
  filed_for signal (c ∷ cs) =
      let rest = filed_for signal cs in
      if c.signal == signal then (c.thread, c.functor) ∷ rest else rest

  -- A signal is caught once there is a handler for it.
  abbrev Caught : SignalHandler F → Type 0
  Caught s = (signal : ℕ) → s.installs signal ≡ (if length (s.handlers signal) == 0 then 0 else 1)

  length-add : (h : ℕ × F) (hs : List (ℕ × F)) → length (hs ++ (h ∷ [])) ≡ suc (length hs)
  length-add h [] = refl
  length-add h (x ∷ xs) = omega (arith, length-add h xs)

  abbrev filed : SignalHandler F → ℕ → ℕ × F → SignalHandler F
  filed s signal h = record s {
    handlers = update s.handlers signal (s.handlers signal ++ (h ∷ []));
  }

  abbrev caught : SignalHandler F → ℕ → SignalHandler F
  caught s signal = record s { installs = update s.installs signal (suc (s.installs signal)) }

  module _ (s : SignalHandler F) (signal previous thread : ℕ) (functor : F)
      (active : s.active ≡ true) where
    handle-first :
        length (s.handlers signal) ≡ 0
        → (handle s signal previous thread functor).0
          ≡ caught (filed s signal (thread, functor)) signal
    unfolding handle
    handle-first e =
        rw (active, ==-self signal, length-add (thread, functor) (s.handlers signal), e) refl

    handle-again :
        length (s.handlers signal) ≢ 0
        → (handle s signal previous thread functor).0 ≡ filed s signal (thread, functor)
    unfolding handle
    handle-again n =
        rw
          (
            active,
            ==-self signal,
            length-add (thread, functor) (s.handlers signal),
            ≢→== (suc (length (s.handlers signal))) 1 (λ x. n (omega arith)),
          )
          refl

    -- The state after a call, its handlers and what is caught.
    pub record IsFiled (t : SignalHandler F) : Type 0 where
      pub still : t.active ≡ true
      pub adds :
          (j : ℕ)
          → t.handlers j
            ≡ (if signal == j then s.handlers signal ++ ((thread, functor) ∷ []) else s.handlers j)
      pub catches : Caught s → Caught t

    handle-IsFiled : IsFiled (handle s signal previous thread functor).0
    handle-IsFiled = elim (Bool-cases (length (s.handlers signal) == 0)) [
      | inl z ↦
          let none_yet : length (s.handlers signal) ≡ 0 = ==→≡ _ _ z in
          rw (handle-first none_yet) (record {
            still = active;
            adds = λ j. refl;
            catches = λ k j.
                ground (arith, k j, none_yet, length-add (thread, functor) (s.handlers signal));
          })
      | inr z ↦ rw (handle-again (==→≢ _ _ z)) (record {
        still = active;
        adds = λ j. refl;
        catches = λ k j.
            ground (arith, k j, ==→≢ _ _ z, length-add (thread, functor) (s.handlers signal));
      })
    ]

  filed_for-cons :
      (s : SignalHandler F) (c : Call F) (cs : List (Call F)) (j : ℕ)
      → (if c.signal == j
            then s.handlers c.signal ++ ((c.thread, c.functor) ∷ [])
            else s.handlers j)
          ++ filed_for j cs
        ≡ s.handlers j ++ filed_for j (c ∷ cs)
  unfolding filed_for
  filed_for-cons s c cs j = elim (Bool-cases (c.signal == j)) [
    | inl y ↦
        rw (y, ==→≡ c.signal j y)
          (append_assoc (s.handlers j) ((c.thread, c.functor) ∷ []) (filed_for j cs))
    | inr y ↦ rw y refl
  ]

  -- Whatever signal(2) returns, the calls of `handle` on the active handler leave for every signal the
  -- handlers of the calls for it, in order, and have called signal(2) once for each signal that has
  -- any.
  handle_all-files :
      (s : SignalHandler F) (calls : List (Call F))
      → s.active ≡ true
      → Caught s
      → ((j : ℕ) → (handle_all s calls).handlers j ≡ s.handlers j ++ filed_for j calls)
        × Caught (handle_all s calls)
  unfolding handle_all filed_for
  handle_all-files s [] a k = (λ j. sym (append-nil (s.handlers j)), k)
  handle_all-files s (c ∷ cs) a k =
      let t = (handle s c.signal c.previous c.thread c.functor).0 in
      let first : IsFiled s c.signal c.previous c.thread c.functor a t =
        handle-IsFiled s c.signal c.previous c.thread c.functor a in
      let (files, catches) = handle_all-files t cs first.still (first.catches k) in
      (
        λ j. files j ∙ ap (λ l. l ++ filed_for j cs) (first.adds j) ∙ filed_for-cons s c cs j,
        catches,
      )

  -- From a new active handler on, whatever signal(2) returns, the calls of `handle` leave for every
  -- signal the handlers of the calls for it, in order, and signal(2) was called once for each signal
  -- that has any and for no other.
  pub filed_in_order :
      (calls : List (Call F))
      → let s = handle_all (create true) calls in
        (j : ℕ)
        → (s.handlers j ≡ filed_for j calls)
          × (s.installs j ≡ (if length (filed_for j calls) == 0 then 0 else 1))
  filed_in_order calls j =
      let (files, catches) = handle_all-files (create true) calls refl (λ i. refl) in
      (files j, catches j ∙ ap (λ l. if length l == 0 then 0 else 1) (files j))
