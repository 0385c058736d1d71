-- ===== src/Engine/Delay.antt =====
-- What `delayed_resume` does to the timers.
use zab.Prelude.{
  ℕ, ◌+◌, ◌<◌, ◌≡◌, ◌==◌, refl, sym, ap, ◌∙◌, Option, none, some, if◌then◌else◌, get_elem?, arith,
  u64_mod, Option-cases, inl, inr, ≢→==, ==-self,
}
use zab.Timer.{TimerFd, Timer, wait}
use zab.Timer.Buckets.{find}
use zab.Timer.Laws.{Inv, joined, wait_files}
use zab.Engine.{Engine, choose, put, delayed_resume}
use zab.Engine.Dispatch.{get_elem?-put}

module _ (os : TimerFd) where
  delayed_wait :
      (e e' : Engine os) (event order thread here : ℕ) (t : Timer os)
      → get_elem? e.timers here ≡ some t
      → 0 < order
      → delayed_resume os e event order thread here ≡ some e'
      → (t' : Timer os) × (wait os t event order (choose e.loops thread) here ≡ some t')
        × (some (record e { timers = put e.timers here t' }) ≡ some e')
  unfolding delayed_resume
  delayed_wait e e' event order thread here t at pos d =
      elim (Option-cases (wait os t event order (choose e.loops thread) here)) [
        | inl w ↦
            let gone : ◌≡◌ {A = Option (Engine os)} none (some e') =
              rw (≢→== order 0 (omega arith), at, w) at d in
            cc
        | inr (t', w) ↦ (t', w, rw (≢→== order 0 (omega arith), at, w) at d)
      ]

  -- On a thread whose timer service is armed for its earliest mark, a `delayed_resume` that succeeds,
  -- with a delay that is not 0 and short of the end of the clock, leaves the event loops and the other
  -- timers alone, and files the event in that thread's service under the time of the service plus the
  -- delay: behind those that sleep till then, for the thread that is asked for or chosen, or, as the
  -- first of them, for the calling thread.
  pub delayed_resume_files :
      (e e' : Engine os) (event order thread here : ℕ) (t : Timer os)
      → get_elem? e.timers here ≡ some t
      → Inv os t
      → 0 < order
      → t.current + order < u64_mod
      → delayed_resume os e event order thread here ≡ some e'
      → (t' : Timer os) × (e'.loops ≡ e.loops)
        × Inv os t'
        × ((j : ℕ) → get_elem? e'.timers j ≡ (if here == j then some t' else get_elem? e.timers j))
        × (find (t.current + order) t'.waiting
            ≡ some
                (joined os (find (t.current + order) t.waiting) event (choose e.loops thread) here))
  delayed_resume_files e e' event order thread here t at inv pos small d =
      let (t', w, done) = delayed_wait e e' event order thread here t at pos d in
      let filed = wait_files os t t' event order (choose e.loops thread) here inv pos small w in
      let is : record e { timers = put e.timers here t' } ≡ e' = cc in
      (
        t',
        ap (λ x. x.loops) (sym is),
        filed.0,
        λ j. ap (λ x. get_elem? x.timers j) (sym is) ∙ get_elem?-put e.timers here j t t' at,
        filed.1 (t.current + order) ∙ rw (==-self (t.current + order)) refl,
      )
