-- ===== src/Proxy/Threads.antt =====
-- On which threads a proxied generator runs.
use zab.Prelude.{
  ℕ, ◌≡◌, ◌≢◌, ◌==◌, ◌∙◌, refl, ap, Bool-cases, inl, inr, true, false, Option, some, List, [], ◌∷◌,
  map, length, sym, ==→≡, if◌then◌else◌, ≢→==, ==-self, arith,
}
use zab.Engine.{any_thread}
use zab.ReusableFuture.{Emission, yields, returns, Promise, new}
use zab.ReusableFuture.Loop.{
  Emits, last, more, Emits-length, Stands, left, value_of, co_await-emits,
}
use zab.Proxy.{
  must_move, Proxied, fresh, looping, run_on, back_from, round, proxy_resume, take_emission, awaits,
  simple_proxy,
}

-- A member that ends on the thread that it starts on is proxied from a thread of the engine: what awaits
-- the proxy goes on on that thread, and the member has run on the required one, or on the caller's if any
-- will do.
pub simple_proxy_lem :
    {V : Type 0} (member : ℕ → V) (required t : ℕ)
    → t ≢ any_thread
    → simple_proxy (λ on. (member on, on)) required t
      ≡ (member (if required == any_thread then t else required), t)
unfolding simple_proxy
simple_proxy_lem member required t h = elim (Bool-cases (required == any_thread)) [
  | inl z ↦ rw z refl
  | inr z ↦ elim (Bool-cases (required == t)) [
    | inl same ↦ rw (z, same) (ap (λ r. (member r, t)) (sym (==→≡ required t same)))
    | inr other ↦ rw (z, other, ≢→== t any_thread h) refl
  ]
]

module _ {G A : Type 0} (resume : (thread : ℕ) → G → Emission G A) (emits_on : (thread : ℕ) → G → ℕ)
    (required me : ℕ) where
  -- The emission of the proxy for one of its generator.
  abbrev handed : (return_thread : ℕ) → Emission G A → Emission (Proxied G A) A
  handed return_thread (yields v g) = yields v (looping return_thread (left (yields v g)))
  handed return_thread (returns v) = returns v

  round-emits :
      (return_thread t : ℕ) (p : Promise G A) (g : G) (x : Emission G A)
      → Stands p g
      → resume (run_on required return_thread t) g ≡ x
      → round resume emits_on required me return_thread t p ≡ (
        some (handed return_thread x),
        back_from required return_thread (emits_on (run_on required return_thread t) g),
      )
  unfolding round
  round-emits return_thread t p g (yields v g') s e =
      rw (co_await-emits (resume (run_on required return_thread t)) me p g (yields v g') s e, s.at)
        refl
  round-emits return_thread t p g (returns v) s e =
      rw (co_await-emits (resume (run_on required return_thread t)) me p g (returns v) s e, s.at)
        refl

  module _ (first : ℕ) (elsewhere : required ≢ first) (some_required : required ≢ any_thread)
      (on_thread : first ≢ any_thread) where
    moves : must_move required first ≡ true
    moves = rw (≢→== required first elsewhere, ≢→== required any_thread some_required) refl

    back : (at : ℕ) → back_from required first at ≡ first
    back at = rw (≢→== required first elsewhere, ≢→== first any_thread on_thread) refl

    round-first :
        (t : ℕ) (p : Promise G A) (g : G) (x : Emission G A)
        → Stands p g
        → resume required g ≡ x
        → round resume emits_on required me first t p ≡ (some (handed first x), first)
    round-first t p g x s e =
        let on : run_on required first t ≡ required = rw moves refl in
        round-emits first t p g x s (ap (λ r. resume r g) on ∙ e)
        ∙ ap (λ u. (some (handed first x), u)) (back (emits_on (run_on required first t) g))

    awaits-looping :
        (threads : List ℕ) (p : Promise G A) (g : G) (vs : List (Option A))
        → Emits (resume required) g vs
        → Stands p g
        → length threads ≡ length vs
        → awaits resume emits_on required me threads (looping first p) ≡ map (λ v. (v, first)) vs
    unfolding awaits proxy_resume
    awaits-looping [] p g vs es s l =
        absurd (omega (arith, l, Emits-length (resume required) g vs es))
    awaits-looping (t ∷ threads) p g vs (last {v} e) s l =
        rw (round-first t p g (returns v) s e) refl
    awaits-looping (t ∷ threads) p g vs (more {g'} {v} {vs = rest} e es) s l =
        rw (round-first t p g (yields v g') s e) (
          ap (λ r. (v, first) ∷ r)
            (awaits-looping threads (left (yields v g')) g' rest es
              (record { at = refl; open_ = refl }) (omega (arith, l))))

    -- A generator that emits some values on a required thread is proxied, and the proxy awaited from as
    -- many threads, of which the first is another one. Every step of the generator runs on the required
    -- thread; who awaits is given the values in their order, each on the first of the threads.
    pub proxied_values :
        (threads : List ℕ) (g : G) (vs : List (Option A))
        → Emits (resume required) g vs
        → length (first ∷ threads) ≡ length vs
        → awaits resume emits_on required me (first ∷ threads) (fresh g) ≡ map (λ v. (v, first)) vs
    unfolding awaits proxy_resume
    proxied_values threads g vs es l =
        awaits-looping (first ∷ threads) (new g) g vs es (record { at = refl; open_ = refl }) l

  stays : must_move required required ≡ false
  stays = elim (Bool-cases (required == any_thread)) [
    | inl z ↦ rw z refl
    | inr z ↦ rw (z, ==-self required) refl
  ]

  back_stays : (at : ℕ) → back_from required required at ≡ at
  back_stays at = elim (Bool-cases (required == any_thread)) [
    | inl z ↦ rw z refl
    | inr z ↦ rw (z, ==-self required) refl
  ]

  round-required :
      (t : ℕ) (p : Promise G A) (g : G)
      → Stands p g
      → round resume emits_on required me required t p
        ≡ (some (handed required (resume t g)), emits_on t g)
  round-required t p g s =
      let on : run_on required required t ≡ t = rw stays refl in
      round-emits required t p g (resume t g) s (ap (λ r. resume r g) on)
      ∙ ap (λ u. (some (handed required (resume t g)), u))
          (back_stays (emits_on (run_on required required t) g) ∙ ap (λ r. emits_on r g) on)

  take_emission-last :
      (at : ℕ) (x : Emission G A)
      → take_emission (awaits resume emits_on required me []) (some (handed required x), at)
        ≡ (value_of x, at) ∷ []
  unfolding awaits
  take_emission-last at (yields v g) = refl
  take_emission-last at (returns v) = refl

  -- If the proxy of a generator is awaited first from the required thread and then from another one, the
  -- generator is resumed on the other one.
  pub proxied_astray :
      (other : ℕ) (g g' : G) (v : Option A)
      → resume required g ≡ yields v g'
      → awaits resume emits_on required me (required ∷ other ∷ []) (fresh g)
        ≡ (v, emits_on required g) ∷ (value_of (resume other g'), emits_on other g') ∷ []
  unfolding awaits proxy_resume
  proxied_astray other g g' v e =
      let p = left (yields v g') in
      rw (round-required required (new g) g (record { at = refl; open_ = refl }), e)
        (ap (λ r. (v, emits_on required g) ∷ r)
          (ap (take_emission (awaits resume emits_on required me []))
              (round-required other p g' (record { at = refl; open_ = refl }))
            ∙ take_emission-last (emits_on other g') (resume other g')))
