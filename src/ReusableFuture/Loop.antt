-- ===== src/ReusableFuture/Loop.antt =====
-- `for_each` gives the functor what the coroutine emits.
use zab.Prelude.{
  ℕ, suc, ◌≤◌, ◌≡◌, ◌==◌, true, false, Option, none, some, List, [], ◌∷◌, length, refl, arith, ◌∙◌,
  ==-self, if◌then◌else◌, Bool-cases, inl, inr,
}
use zab.ReusableFuture.{
  has_value, Emission, yields, returns, State, empty, item, complete_, Promise, ForCtl, new,
  complete, is_complete, prepared, emplace, co_await, ends_loop, for_each,
}

-- A promise whose coroutine stands before its next emission.
pub record Stands {G A : Type 0} (p : Promise G A) (g : G) : Type 0 where
  pub at : p.code ≡ some g
  pub open_ : is_complete p.state ≡ false

-- The promise behind an emission, and its value.
abbrev pub left : {G A : Type 0} → Emission G A → Promise G A
left (yields v g) = record { state = item; content = v; underlying = none; code = some g }
left (returns v) = record { state = complete_; content = v; underlying = none; code = none }

abbrev pub value_of : {G A : Type 0} → Emission G A → Option A
value_of (yields v g) = v
value_of (returns v) = v

module _ {G A : Type 0} (resume : G → Emission G A) where
  -- From the state `g` on the coroutine emits the values and then returns the last of them.
  pub data Emits : G → List (Option A) → Type 0 where
    last : {g : G} {v : Option A} → resume g ≡ returns v → Emits g (v ∷ [])
    more :
        {g g' : G} {v : Option A} {vs : List (Option A)}
        → resume g ≡ yields v g'
        → Emits g' vs
        → Emits g (v ∷ vs)

  prepared_empty : (st : State) → is_complete st ≡ false → has_value (prepared st) ≡ false
  prepared_empty empty e = refl
  prepared_empty item e = refl
  prepared_empty complete_ e = cc

  emplace-none : (v : Option A) → emplace none v ≡ v
  emplace-none none = refl
  emplace-none (some x) = refl

  -- One `co_await` gives the next emission to who awaits.
  pub co_await-emits :
      (me : ℕ) (p : Promise G A) (g : G) (x : Emission G A)
      → Stands p g
      → resume g ≡ x
      → co_await resume me p ≡ some (left x, value_of x)
  unfolding co_await
  co_await-emits me p g (yields v g') s e =
      rw (prepared_empty p.state s.open_, s.at, e, ==-self me, emplace-none v) refl
  co_await-emits me p g (returns v) s e =
      rw (prepared_empty p.state s.open_, s.at, e, ==-self me, emplace-none v) refl

  pub Emits-length : (g : G) (vs : List (Option A)) → Emits g vs → 1 ≤ length vs
  Emits-length g vs (last e) = omega arith
  Emits-length g vs (more e es) = omega arith

  module _ {T : Type 0} (functor : T → Option A → T × ForCtl) where
    -- The functor over a list of values, up to a break, with how many it was given.
    pub consume : T → List (Option A) → T × ℕ
    consume t [] = (t, 0)
    consume t (v ∷ vs) =
        let (t', ctl) = functor t v in
        let (t'', n) = consume t' vs in if ends_loop ctl then (t', 1) else (t'', suc n)

    for_each-round :
        (fuel me : ℕ) (t : T) (p : Promise G A) (g : G) (x : Emission G A)
        → Stands p g
        → resume g ≡ x
        → for_each resume functor (suc fuel) me t p ≡ (
            if ends_loop (functor t (value_of x)).1
            then some ((functor t (value_of x)).0, left x)
            else for_each resume functor fuel me (functor t (value_of x)).0 (left x))
    unfolding for_each
    for_each-round fuel me t p g x s e = rw (s.open_, co_await-emits me p g x s e) refl

    for_each-complete :
        (fuel me : ℕ) (t : T) (p : Promise G A)
        → complete p ≡ true
        → for_each resume functor (suc fuel) me t p ≡ some (t, p)
    unfolding for_each
    for_each-complete fuel me t p e = rw e refl

    -- What the loop ends with.
    pub record Ended (t : T) (vs : List (Option A)) (out : Option (T × Promise G A)) : Type 0 where
      pub promise : Promise G A
      pub result : out ≡ some ((consume t vs).0, promise)
      pub over : complete promise ≡ ((consume t vs).1 == length vs)

    for_each-Ended :
        (me : ℕ) (t : T) (p : Promise G A) (g : G) (vs : List (Option A))
        → Emits g vs
        → Stands p g
        → Ended t vs (for_each resume functor (suc (length vs)) me t p)
    unfolding consume
    for_each-Ended me t p g vs (last {v} e) s = elim (Bool-cases (ends_loop (functor t v).1)) [
      | inl z ↦ record {
        promise = left (returns v);
        result = for_each-round 1 me t p g (returns v) s e ∙ rw z refl;
        over = rw z refl;
      }
      | inr z ↦ record {
        promise = left (returns v);
        result =
            for_each-round 1 me t p g (returns v) s e
            ∙ rw z (for_each-complete 0 me (functor t v).0 (left (returns v)) refl);
        over = rw z refl;
      }
    ]
    for_each-Ended me t p g vs (more {g'} {v} {vs = rest} e es) s =
        elim (Bool-cases (ends_loop (functor t v).1)) [
          | inl z ↦ record {
            promise = left (yields v g');
            result = for_each-round (suc (length rest)) me t p g (yields v g') s e ∙ rw z refl;
            over = rw z (ground (arith, Emits-length g' rest es));
          }
          | inr z ↦
              let again =
                for_each-Ended me (functor t v).0 (left (yields v g')) g' rest es
                  (record { at = refl; open_ = refl }) in
              record {
                promise = again.promise;
                result =
                    for_each-round (suc (length rest)) me t p g (yields v g') s e
                    ∙ rw z again.result;
                over = rw z (ground (arith, again.over));
              }
        ]

    -- If the coroutine emits the values `vs` and returns with the last, then `for_each` on its future
    -- ends within one round more than there are values: the functor was given them in order up to the
    -- first break, and the future is complete exactly if it was given all of them.
    pub for_each_lem :
        (me : ℕ) (t : T) (g : G) (vs : List (Option A))
        → Emits g vs
        → (p : Promise G A) × (for_each resume functor (suc (length vs)) me t (new g)
            ≡ some ((consume t vs).0, p))
          × (complete p ≡ ((consume t vs).1 == length vs))
    for_each_lem me t g vs es =
        let r = for_each-Ended me t (new g) g vs es (record { at = refl; open_ = refl }) in
        (r.promise, r.result, r.over)
