-- ===== src/PauseToken/Unpause.antt =====
-- What a whole call of `unpause` does.
use zab.Prelude.{
  ℕ, zero, suc, ◌+◌, ◌≤◌, ◌<◌, ◌≡◌, ◌≢◌, refl, false, List, [], ◌∷◌, arith, update, In, NotIn,
  length, sym, ltb-false, lt→ltb, ==-self, ≢→==, ◌∙◌, In-split,
}
use zab.Memory.{Chain}
use zab.PauseToken.{unpaused_flag, paused, unpause, idle, unpausing, walking, access, System, turn}

-- `c` takes `k` turns in a row.
unfoldable pub again : ℕ → ℕ → ℕ → System → System
again n c zero s = s
again n c (suc k) s = again n c k (turn n s (record { who = c; call = unpause; weak = false }))

again-zero : (n c : ℕ) (s : System) → again n c 0 s ≡ s
unfolding again
again-zero n c s = refl

again-suc :
    (n c k : ℕ) (s : System)
    → again n c (suc k) s
      ≡ again n c k (turn n s (record { who = c; call = unpause; weak = false }))
unfolding again
again-suc n c k s = refl

-- `t` comes from `s` by resuming the coroutines `xs` and finishing the call of `c`.
pub record Resumed (s t : System) (c : ℕ) (xs : List ℕ) : Type 0 where
  pub done : t.pc c ≡ idle
  pub resumed : (j : ℕ) → In j xs → t.pc j ≡ idle
  pub others : (j : ℕ) → NotIn j xs → j ≢ c → t.pc j ≡ s.pc j
  pub kept : t.token ≡ s.token

module _ (n c : ℕ) (high : 2 ≤ c) (room : c < n) where
  turn_wake :
      (s : System) (x : ℕ)
      → 2 ≤ x
      → s.pc c ≡ walking x
      → turn n s (record { who = c; call = unpause; weak = false })
        ≡ record { token = s.token; pc = update (update s.pc c (walking (s.token.links x))) x idle }
  unfolding turn access
  turn_wake s x h e = rw (e, ltb-false c high, lt→ltb c n room, ≢→== x 0 (omega arith))

  turn_stop :
      (s : System)
      → s.pc c ≡ walking 0
      → turn n s (record { who = c; call = unpause; weak = false })
        ≡ record { token = s.token; pc = update s.pc c idle }
  unfolding turn access
  turn_stop s e = rw (e, ltb-false c high, lt→ltb c n room)

  turn_take :
      (s : System)
      → s.pc c ≡ unpausing
      → s.token.word ≢ unpaused_flag
      → turn n s (record { who = c; call = unpause; weak = false }) ≡ record {
        token = record { word = unpaused_flag; links = s.token.links };
        pc = update s.pc c (walking s.token.word);
      }
  unfolding turn access
  turn_take s e f = rw (e, ltb-false c high, lt→ltb c n room, ≢→== s.token.word unpaused_flag f)

  -- The loop from its first pauser on.
  walk_resumes :
      (xs : List ℕ) (old : ℕ) (s : System)
      → NotIn c xs
      → s.pc c ≡ walking old
      → Chain s.token.links 0 old xs
      → Resumed s (again n c (suc (length xs)) s) c xs
  walk_resumes [] old s a e k =
      rw (again-suc, again-zero, turn_stop s (rw (← k) e))
        (record {
          done = rw (==-self c);
          resumed = λ j i. absurd i;
          others = λ j _ o. rw (≢→== c j (λ q. o (sym q)));
          kept = refl;
        })
  walk_resumes (x ∷ xs) old s a e k =
      let s' : System = record {
        token = s.token;
        pc = update (update s.pc c (walking (s.token.links x))) x idle;
      } in
      let r : Resumed s' (again n c (suc (length xs)) s') c xs =
        walk_resumes xs (s.token.links x) s' a.1 (ground arith) k.2 in
      rw (again-suc n c (suc (length xs)) s, turn_wake s x k.1 (rw (← k.0) e))
        (record {
          done = r.done;
          resumed = λ j i.
              In-split j x xs i (r.resumed j)
                (λ o q. r.others j o (λ h. a.0 (sym h ∙ q)) ∙ rw (q, ==-self x));
          others = λ j o q. r.others j o.1 q ∙ ground arith;
          kept = r.kept;
        })

  -- A call of `unpause` that finds the token paused, with the coroutines `xs` on its stack: its next
  -- `length xs + 2` turns take the stack, resume exactly those coroutines and return, and the token
  -- is unpaused.
  pub unpause_resumes :
      (s : System) (xs : List ℕ)
      → s.pc c ≡ unpausing
      → s.token.word ≢ unpaused_flag
      → NotIn c xs
      → Chain s.token.links 0 s.token.word xs
      → let t = again n c (length xs + 2) s in
        (t.pc c ≡ idle)
        × ((j : ℕ) → In j xs → t.pc j ≡ idle)
        × ((j : ℕ) → NotIn j xs → j ≢ c → t.pc j ≡ s.pc j)
        × (paused t.token ≡ false)
  unpause_resumes s xs e f a k =
      let s' : System = record {
        token = record { word = unpaused_flag; links = s.token.links };
        pc = update s.pc c (walking s.token.word);
      } in
      let r : Resumed s' (again n c (suc (length xs)) s') c xs =
        walk_resumes xs s.token.word s' a (rw (==-self c)) k in
      let two : length xs + 2 ≡ suc (suc (length xs)) = omega arith in
      rw (two, again-suc n c (suc (length xs)) s, turn_take s e f)
        (r.done, r.resumed, λ j o q. r.others j o q ∙ rw (≢→== c j (λ h. q (sym h))), rw r.kept)
