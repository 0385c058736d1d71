-- ===== src/PauseToken/Invariant.antt =====
-- Where the suspended coroutines of a pause token are, in every reachable state.
use zab.Prelude.{
  ℕ, ◌+◌, ◌≤◌, ◌<◌, ◌≡◌, ◌≢◌, ◌⊎◌, inl, inr, refl, ◌==◌, List, [], ◌∷◌, arith, update, count, NotIn,
  NotIn-of_count, total, total-update, le-total, sym, ap, subst, ==-self, Bool-cases, ==→≡, ltb,
  ltb→lt, ≢→==, ◌∙◌,
}
use zab.Memory.{Links, Chain, Chain-update, Chain-nil}
use zab.PauseToken.{
  unpaused_flag, Token, Pc, idle, looping, waiting, clearing, unpausing, walking, waits,
}

-- What a coroutine in the middle of `unpause` has still to resume; elsewhere nothing. In the loop of
-- `pause()` the expected value is the flag.
abbrev pub Walks : Links → Pc → List ℕ → Type 0
Walks links (walking old) rest = Chain links 0 old rest
Walks links (clearing current) rest = (rest ≡ []) × (current ≡ unpaused_flag)
Walks links p rest = rest ≡ []

pub record Inv (n : ℕ) (t : Token) (pc : ℕ → Pc) (stack : List ℕ) (rest : ℕ → List ℕ) : Type 0 where
  pub chain : ((t.word ≡ unpaused_flag) × (stack ≡ [])) ⊎ Chain t.links 0 t.word stack
  pub walks : (c : ℕ) → Walks t.links (pc c) (rest c)
  pub parked : (j : ℕ) → count j stack + total (count j) n rest ≡ waits (pc j)
  pub outside : (j : ℕ) → n ≤ j → rest j ≡ []

waiting_rest : (links : Links) (p : Pc) (xs : List ℕ) → waits p ≡ 1 → Walks links p xs → xs ≡ []
waiting_rest links (walking old) xs a w = absurd (omega arith)
waiting_rest links (clearing current) xs a w = absurd (omega arith)
waiting_rest links idle xs a w = absurd (omega arith)
waiting_rest links _ xs a w = w

Walks-links :
    (links : Links) (c v : ℕ) (p : Pc) (xs : List ℕ)
    → NotIn c xs
    → Walks links p xs
    → Walks (update links c v) p xs
Walks-links links c v (walking old) xs h w = Chain-update links 0 old c v xs h w
Walks-links links c v idle xs h w = w
Walks-links links c v _ xs h w = w

module _ {n : ℕ} {t : Token} {pc : ℕ → Pc} {stack : List ℕ} {rest : ℕ → List ℕ}
    (inv : Inv n t pc stack rest) (c : ℕ) (room : c < n) where
  open inv use {chain, walks, parked}

  not_walking : (p : Pc) → pc c ≡ p → Walks t.links p (rest c)
  not_walking p e = subst (λ q. Walks t.links q (rest c)) e (walks c)

  Walks-update :
      (p' : Pc) → Walks t.links p' (rest c) → (j : ℕ) → Walks t.links (update pc c p' j) (rest j)
  Walks-update p' w j = elim (Bool-cases (c == j)) [
    | inl e ↦ rw e (rw (← ==→≡ c j e) w)
    | inr e ↦ rw e (walks j)
  ]

  -- A turn that changes neither the token nor who waits or walks.
  pub local_turn :
      {p : Pc} (p' : Pc)
      → pc c ≡ p
      → waits p' ≡ waits p
      → Walks t.links p' (rest c)
      → Inv n t (update pc c p') stack rest
  local_turn p' e w k = record {
    chain = chain;
    walks = Walks-update p' k;
    parked = λ j. ground (arith, parked j, parked c);
    outside = inv.outside;
  }

  rest_free : waits (pc c) ≡ 0 → (j : ℕ) → NotIn c (rest j)
  rest_free w j = elim (Bool-cases (ltb j n)) [
    | inl h ↦
        NotIn-of_count c (rest j)
          (omega (arith, parked c, le-total (count c) n rest j (ltb→lt j n h)))
    | inr h ↦ rw (inv.outside j (ground arith)) tt
  ]

  -- The store to the pauser's own link, before it is on the stack.
  pub link_turn :
      (previous : ℕ)
      → waits (pc c) ≡ 0
      → Inv n (record t { links = update t.links c previous }) pc stack rest
  link_turn previous w = record {
    chain = elim chain [
      | inl z ↦ inl z
      | inr k ↦ inr (
          Chain-update t.links 0 t.word c previous stack
            (NotIn-of_count c stack (omega (arith, parked c))) k)
    ];
    walks = λ j. Walks-links t.links c previous (pc j) (rest j) (rest_free w j) (walks j);
    parked = parked;
    outside = inv.outside;
  }

  -- `c` puts itself on the stack.
  pub push_turn :
      (previous : ℕ)
      → 2 ≤ c
      → pc c ≡ looping previous
      → previous ≢ unpaused_flag
      → t.word ≡ previous
      → Inv n
          (record { word = c; links = update t.links c previous })
          (update pc c waiting)
          (c ∷ stack)
          rest
  push_turn previous high e f w = record {
    chain = elim linked.chain [
      | inl z ↦ absurd (f (sym w ∙ z.0))
      | inr k ↦ inr (refl, high, rw (==-self c, ← w) k)
    ];
    walks = λ j. elim (Bool-cases (c == j)) [
      | inl same ↦ rw same (rw (← ==→≡ c j same) (not_walking (looping previous) e))
      | inr other ↦ rw other (linked.walks j)
    ];
    parked = λ j. ground (arith, parked j, parked c);
    outside = inv.outside;
  }
    where
      linked : Inv n (record t { links = update t.links c previous }) pc stack rest
      linked = link_turn previous (rw e)

  -- `pause()` on an unpaused token.
  pub pause_turn :
      (p : Pc)
      → pc c ≡ p
      → waits p ≡ 0
      → Walks t.links idle (rest c)
      → t.word ≡ unpaused_flag
      → Inv n (record t { word = 0 }) (update pc c idle) stack rest
  pause_turn p e w k f = record {
    chain = elim chain [
      | inl z ↦ inr (rw z.1 refl)
      | inr l ↦ absurd (omega (arith, (Chain-nil t.links 0 t.word stack (omega arith) l).1))
    ];
    walks = Walks-update idle k;
    parked = λ j. ground (arith, parked j, parked c);
    outside = inv.outside;
  }

  -- The exchange of `unpause` on a paused token: the stack is `c`'s to resume.
  pub take_turn :
      pc c ≡ unpausing
      → t.word ≢ unpaused_flag
      → Inv n
          (record t { word = unpaused_flag })
          (update pc c (walking t.word))
          []
          (update rest c stack)
  take_turn e f = record {
    chain = inl (refl, refl);
    walks = λ j. elim (Bool-cases (c == j)) [
      | inl same ↦ rw same (elim chain [ inl z ↦ absurd (f z.0) | inr k ↦ k ])
      | inr other ↦ rw other (walks j)
    ];
    parked = λ j. ground (
      arith,
      parked j,
      parked c,
      total-update (count j) n rest c stack room,
      ap (count j) (not_walking unpausing e),
    );
    outside = λ j h. rw (≢→== c j (omega arith)) (inv.outside j h);
  }

  -- A resumption: the first of `c`'s list runs on, and the loop goes to the one behind it.
  pub wake_turn :
      (old : ℕ) (later : List ℕ)
      → pc c ≡ walking old
      → rest c ≡ old ∷ later
      → Chain t.links 0 (t.links old) later
      → Inv n t (update (update pc c (walking (t.links old))) old idle) stack (update rest c later)
  wake_turn old later e q k = record {
    chain = chain;
    walks = λ j. elim (Bool-cases (old == j)) [
      | inl same ↦ rw same (rw (← ==→≡ old j same, ≢→== c old apart) (asleep_rest old asleep))
      | inr other ↦ rw other (behind j)
    ];
    parked = λ j. ground (arith, parked j, counts j, asleep, ap waits e);
    outside = λ j h. rw (≢→== c j (omega arith)) (inv.outside j h);
  }
    where
      counts :
          (j : ℕ)
          → total (count j) n (update rest c later) + count j (old ∷ later)
            ≡ total (count j) n rest + count j later
      counts j =
          subst
            (λ l.
              total (count j) n (update rest c later) + count j l
              ≡ total (count j) n rest + count j later)
            q (total-update (count j) n rest c later room)

      asleep : waits (pc old) ≡ 1
      asleep = ground (arith, parked old, le-total (count old) n rest c room, ap (count old) q)

      apart : c ≢ old
      apart h = absurd (omega (arith, asleep, ap (λ x. waits (pc x)) h, ap waits e))

      asleep_rest : (j : ℕ) → waits (pc j) ≡ 1 → rest j ≡ []
      asleep_rest j a = waiting_rest t.links (pc j) (rest j) a (walks j)

      behind :
          (j : ℕ) → Walks t.links (update pc c (walking (t.links old)) j) (update rest c later j)
      behind j = elim (Bool-cases (c == j)) [
        | inl same ↦ rw same k
        | inr other ↦ rw other (walks j)
      ]
