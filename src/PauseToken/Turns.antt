-- ===== src/PauseToken/Turns.antt =====
-- Every turn keeps the invariant of a pause token, so every schedule does.
use zab.Prelude.{
  ℕ, ◌+◌, ◌≤◌, ◌<◌, ◌≡◌, ◌⊎◌, inl, inr, refl, ◌==◌, ltb, not, ◌&&◌, ◌||◌, Bool, true, false, List,
  [], ◌∷◌, arith, update, count, total, total-zero, Bool-cases, ==→≡, ==→≢, subst, ◌∙◌,
  if◌then◌else◌,
}
use zab.Memory.{Chain, Chain-nil, Chain-cons}
use zab.PauseToken.{
  unpaused_flag, Token, paused, Call, await, pause, unpause, Pc, idle, checking, loading, looping,
  waiting, clear_loading, clearing, unpausing, walking, Outcome, moves, access, System, init, wake,
  Turn, turn, run, waits,
}
use zab.PauseToken.Invariant.{
  Inv, Walks, local_turn, link_turn, push_turn, pause_turn, take_turn, wake_turn,
}

-- Where the suspended coroutines are: on the token's stack, or still to be resumed by an `unpause`.
pub record Located (n : ℕ) (t : Token) (pc : ℕ → Pc) : Type 0 where
  pub stack : List ℕ
  pub rest : ℕ → List ℕ
  pub inv : Inv n t pc stack rest

located :
    {n : ℕ} {t : Token} {pc : ℕ → Pc} {stack : List ℕ} {rest : ℕ → List ℕ}
    → Inv n t pc stack rest
    → Located n t pc
located {stack} {rest} inv = record { stack = stack; rest = rest; inv = inv }

and_right : (a b : Bool) → (a && b) ≡ true → b ≡ true
and_right a b h = ground arith

module _ {n : ℕ} {t : Token} {pc : ℕ → Pc} {stack : List ℕ} {rest : ℕ → List ℕ}
    (inv : Inv n t pc stack rest) (c : ℕ) (high : 2 ≤ c) (room : c < n) where
  -- The rest of `c` is empty where `c` is not in the loop of `unpause`.
  at : (p : Pc) → pc c ≡ p → Walks t.links p (rest c)
  at p e = subst (λ q. Walks t.links q (rest c)) e (inv.walks c)

  abbrev After : Outcome → Type 0
  After o = Located n o.token (wake o.woken (update pc c o.pc))

  choose :
      (b : Bool) (x y : Outcome)
      → (b ≡ true → After x)
      → (b ≡ false → After y)
      → After (if b then x else y)
  choose true x y f g = f refl
  choose false x y f g = g refl

  -- A turn that only moves `c` on, out of the loop of `unpause`.
  step_to :
      (p p' : Pc) → pc c ≡ p → waits p' ≡ waits p → Walks t.links p' (rest c) → After (moves t p')
  step_to p p' e w k = located (local_turn inv c room p' e w k)

  access-Located : (call : Call) (weak : Bool) (p : Pc) → pc c ≡ p → After (access c call weak t p)
  unfolding access
  access-Located await weak idle e = step_to idle checking e refl (at idle e)
  access-Located pause weak idle e = step_to idle clear_loading e refl (at idle e)
  access-Located unpause weak idle e = step_to idle unpausing e refl (at idle e)
  access-Located call weak checking e =
      choose (paused t) _ _ (λ _. step_to checking loading e refl (at checking e))
        (λ _. step_to checking idle e refl (at checking e))
  access-Located call weak loading e = step_to loading (looping t.word) e refl (at loading e)
  access-Located call weak (looping previous) e =
      choose (previous == unpaused_flag) _ _
        (λ _. step_to (looping previous) idle e refl (at (looping previous) e))
        (λ f.
          choose (not weak && t.word == previous) _ _
            (λ won. located (
              push_turn inv c room previous high e (==→≢ _ _ f)
                (==→≡ _ _ (and_right (not weak) _ won))))
            (λ lost. located (
              local_turn (link_turn inv c room previous (rw e refl)) c room (looping t.word) e refl
                (at (looping previous) e))))
  access-Located call weak waiting e = step_to waiting waiting e refl (at waiting e)
  access-Located call weak clear_loading e =
      choose (t.word == unpaused_flag) _ _
        (λ f. step_to clear_loading (clearing t.word) e refl (at clear_loading e, ==→≡ _ _ f))
        (λ _. step_to clear_loading idle e refl (at clear_loading e))
  access-Located call weak (clearing current) e =
      let (none_left, flag) = at (clearing current) e in
      choose (not weak && t.word == current) _ _
        (λ won. located (
          pause_turn inv c room (clearing current) e refl none_left
            (==→≡ _ _ (and_right (not weak) _ won) ∙ flag)))
        (λ _.
          choose (t.word == unpaused_flag) _ _
            (λ f. step_to (clearing current) (clearing t.word) e refl (none_left, ==→≡ _ _ f))
            (λ _. step_to (clearing current) idle e refl none_left))
  access-Located call weak unpausing e =
      choose (t.word == unpaused_flag) _ _
        (λ f.
          subst (λ w. After (moves (record t { word = w }) idle)) (==→≡ _ _ f)
            (step_to unpausing idle e refl (at unpausing e)))
        (λ f. located (take_turn inv c room e (==→≢ _ _ f)))
  access-Located call weak (walking old) e =
      choose (old == 0) _ _
        (λ z.
          step_to (walking old) idle e refl
            (Chain-nil t.links 0 old (rest c) (ground arith) (at (walking old) e)).0)
        (λ f.
          let (later, _, q, k) =
            Chain-cons t.links 0 old (rest c) (==→≢ _ _ f) (at (walking old) e) in
          located (wake_turn inv c room old later e q k))

pub turn-Located :
    {n : ℕ} {s : System} (e : Turn)
    → Located n s.token s.pc
    → Located n (turn n s e).token (turn n s e).pc
unfolding turn
turn-Located {n} {s} e h = elim (Bool-cases (ltb e.who 2 || not (ltb e.who n))) [
  | inl skip ↦ rw skip h
  | inr go ↦
      rw go
        (access-Located h.inv e.who (ground arith) (ground arith) e.call e.weak (s.pc e.who) refl)
]

init-Located : (n : ℕ) → Located n init.token init.pc
init-Located n = record {
  stack = [];
  rest = λ _. [];
  inv = record {
    chain = inr refl;
    walks = λ c. refl;
    parked = λ j. omega (arith, total-zero (count j) n (λ _. []) (λ _. refl));
    outside = λ j h. refl;
  };
}

run-Located :
    {n : ℕ} (schedule : List Turn) {s : System}
    → Located n s.token s.pc
    → Located n (run n s schedule).token (run n s schedule).pc
unfolding run
run-Located [] h = h
run-Located {n} (e ∷ rest) {s} h = run-Located rest (turn-Located {n = n} {s = s} e h)

-- Under every schedule of coroutines with addresses below `n`, from a new token: a coroutine is
-- suspended exactly if it stands once on the stack that the word links, or once in the list that one
-- call of `unpause` has still to resume, so none is forgotten and none is resumed twice. An unpaused
-- word has no stack.
pub suspended_once :
    (n : ℕ) (schedule : List Turn)
    → let s = run n init schedule in
      (h : Located n s.token s.pc) × ((j : ℕ)
        → count j h.stack + total (count j) n h.rest ≡ waits (s.pc j))
      × ((c old : ℕ) → s.pc c ≡ walking old → Chain s.token.links 0 old (h.rest c))
      × (((s.token.word ≡ unpaused_flag) × (h.stack ≡ []))
          ⊎ Chain s.token.links 0 s.token.word h.stack)
suspended_once n schedule =
    let h = run-Located schedule (init-Located n) in
    (
      h,
      h.inv.parked,
      λ c old e.
          subst (λ p. Walks (run n init schedule).token.links p (h.rest c)) e (h.inv.walks c),
      h.inv.chain,
    )
