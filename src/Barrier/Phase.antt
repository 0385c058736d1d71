-- ===== src/Barrier/Phase.antt =====
-- What `complete_phase` does, as a whole, with the window of a phase.
use zab.Prelude.{
  ℕ, zero, suc, ◌+◌, ◌-◌, ◌^◌, ◌≤◌, ◌<◌, ◌≡◌, refl, ap, ◌∙◌, Bool, true, leb, List, [], ◌∷◌, ◌++◌,
  Option, some, arith, length, length-append, In, NotIn, Distinct, add64, sub64, neg64, sle64,
  get_or, ≢→==,
}
use zab.Barrier.{
  Barrier, kind, address, complete_phase, window_pass, trim, resume_frames, count_drop, resume,
  iterate,
}
use zab.Barrier.Window.{Linked, iterate-fold, head_after, window_pass_lem}
use zab.Barrier.Trim.{addresses, Trimmed, trim-Trimmed}
use zab.Barrier.Calls.{
  calls, drops, handle_after, Resumed, resume-Resumed, fold-drops, count_drop-goes, resume-goes,
  drops-le_length,
}

-- The phase completed with the participants `win`, newest first, while `front` arrived early for the
-- next one.
pub record Completed (b : Barrier) (front win : List ℕ) (out : Option (Barrier × Bool))
    : Type 0 where
  pub after : Barrier
  pub again : Bool
  pub result : out ≡ some (after, again)
  pub once : after.phases ≡ suc b.phases
  pub resumes : after.resumed ≡ b.resumed ++ calls b.handles b.threads win
  pub handles :
      (w : ℕ) → In w win → after.handles (address w) ≡ handle_after (kind w) (b.handles (address w))
  pub early_handles : (a : ℕ) → NotIn a (addresses win) → after.handles a ≡ b.handles a
  pub early : Linked after.links after.working_set front
  pub fewer : after.expected ≡ b.expected - drops win
  pub counted : after.count ≡ sub64 after.expected (length front)
  pub schedules : again ≡ leb after.expected (length front)

Distinct-back : (xs ys : List ℕ) → Distinct (addresses (xs ++ ys)) → Distinct (addresses ys)
Distinct-back [] ys d = d
Distinct-back (x ∷ xs) ys d = Distinct-back xs ys d.1

get_or-append : (front win : List ℕ) → get_or (front ++ win) (length front) 0 ≡ get_or win 0 0
get_or-append [] [] = refl
get_or-append [] (w ∷ win) = refl
get_or-append (x ∷ front) win = get_or-append front win

head_after-append :
    (e : ℕ) (front : List ℕ) (q : ℕ) (qs : List ℕ)
    → e ≡ length (q ∷ qs)
    → head_after e (front ++ (q ∷ qs)) (length (front ++ (q ∷ qs))) ≡ q
head_after-append e front q qs h =
    ground (arith, length-append front (q ∷ qs), at_front, get_or-append front (q ∷ qs))
  where
    at_front :
        get_or (front ++ (q ∷ qs)) (length (front ++ (q ∷ qs)) - e) 0
        ≡ get_or (front ++ (q ∷ qs)) (length front) 0
    at_front =
        ap (λ i. get_or (front ++ (q ∷ qs)) i 0) (omega (arith, length-append front (q ∷ qs)))

recount :
    (f e n d : ℕ)
    → n < 2 ^ 63
    → e ≤ n
    → d ≤ e
    → f ≡ n - e
    → add64 (sub64 e n) (e - d) ≡ sub64 (e - d) f
recount f e n d h k l q = omega arith

due_again :
    (f e n d : ℕ)
    → n < 2 ^ 62
    → e ≤ n
    → d ≤ e
    → f ≡ n - e
    → sle64 (sub64 e n) (neg64 (e - d)) ≡ leb (e - d) f
due_again f e n d h k l q = ground arith

-- `complete_phase` with `expected_` participants `win` that have arrived and the entries `front` behind
-- them, newest first, on nodes of their own and fewer than 2^62 in all, and with `count_` what the
-- arrivals have left of `expected_`: with fuel for each entry it returns. It takes exactly the
-- participants of the phase, resumes all the coroutines that wait there and marks the tokens nobody
-- waits on, calls the completion once, leaves the early entries in the working set, reduces
-- `expected_` by the drops of the phase, sets `count_` to what the early entries leave of it, and
-- schedules the next phase exactly if these are already enough to complete it.
pub complete_phase-Completed :
    (b : Barrier) (front : List ℕ) (q : ℕ) (qs : List ℕ) (fuel : ℕ)
    → length (front ++ (q ∷ qs)) < 2 ^ 62
    → length (front ++ (q ∷ qs)) ≤ fuel
    → Distinct (addresses (front ++ (q ∷ qs)))
    → Linked b.links b.working_set (front ++ (q ∷ qs))
    → b.expected ≡ length (q ∷ qs)
    → b.count ≡ sub64 b.expected (length (front ++ (q ∷ qs)))
    → Completed b front (q ∷ qs) (complete_phase fuel b)
unfolding complete_phase resume_frames
complete_phase-Completed b front q qs fuel small enough distinct linked all counts =
    let n : length (front ++ (q ∷ qs)) ≡ length front + length (q ∷ qs) =
      length-append front (q ∷ qs) in
    let d : drops (q ∷ qs) ≤ length (q ∷ qs) = drops-le_length (q ∷ qs) in
    let t : Trimmed b.links front (q ∷ qs) q (trim fuel b.working_set b.links q) =
      trim-Trimmed b.links b.working_set front q qs fuel (omega (arith, n)) distinct linked in
    let r : Resumed b.threads (q ∷ qs) b.handles b.resumed =
      resume-Resumed b.threads (q ∷ qs) b.handles b.resumed
        (Distinct-back front (q ∷ qs) distinct) in
    let left : sub64 b.expected (drops (q ∷ qs)) ≡ b.expected - drops (q ∷ qs) = omega arith in
    let found : window_pass fuel b.expected b.links b.working_set ≡ some q =
      window_pass_lem b.links (front ++ (q ∷ qs)) b.working_set b.expected linked
        (omega (arith, all)) (omega (arith, all, n)) (omega arith) fuel enough
      ∙ ap some (head_after-append b.expected front q qs all) in
    let dropped : iterate fuel t.links' count_drop q 0 ≡ some (drops (q ∷ qs)) =
      iterate-fold count_drop count_drop-goes t.links' (q ∷ qs) fuel q 0 (omega (arith, n))
        t.window_linked
      ∙ ap some (fold-drops (q ∷ qs) 0 ∙ omega arith) in
    let loop : iterate fuel t.links' (resume b.threads) q (b.handles, b.resumed)
        ≡ some (r.handles', b.resumed ++ calls b.handles b.threads (q ∷ qs)) =
      iterate-fold (resume b.threads) (resume-goes b.threads) t.links' (q ∷ qs) fuel q
        (b.handles, b.resumed) (omega (arith, n)) t.window_linked
      ∙ ap some r.result in
    record {
      after = record b {
        working_set = t.working_set;
        links = t.links';
        phases = suc b.phases;
        expected = b.expected - drops (q ∷ qs);
        count = add64 b.count (b.expected - drops (q ∷ qs));
        handles = r.handles';
        resumed = b.resumed ++ calls b.handles b.threads (q ∷ qs);
      };
      again = sle64 b.count (neg64 (b.expected - drops (q ∷ qs)));
      result =
          rw
            (
              found,
              complete_phase,
              resume_frames,
              ≢→== q 0 (omega (arith, t.window_linked.1)),
              t.result,
              dropped,
              ← left,
              loop,
            )
            refl;
      once = refl;
      resumes = refl;
      handles = r.own;
      early_handles = r.others;
      early = t.front_linked;
      fewer = refl;
      counted = rw counts (
          recount (length front) b.expected (length (front ++ (q ∷ qs))) (drops (q ∷ qs))
            (omega arith) (omega (arith, n, all)) (omega (arith, all, d)) (omega (arith, n, all)));
      schedules = rw counts (
          due_again (length front) b.expected (length (front ++ (q ∷ qs))) (drops (q ∷ qs)) small
            (omega (arith, n, all)) (omega (arith, all, d)) (omega (arith, n, all)));
    }

-- If every participant of a phase dropped, so that it ran as above with no entry behind them, then it
-- schedules another phase, although `expected_` is 0 and no entry is left; and no round of
-- `aquire_window` on the barrier it leaves finds a window, whatever the fuel: the scheduled phase
-- spins until someone arrives.
pub all_dropped_spins :
    (b : Barrier) (q : ℕ) (qs : List ℕ) (fuel : ℕ)
    → length (q ∷ qs) < 2 ^ 62
    → length (q ∷ qs) ≤ fuel
    → Distinct (addresses (q ∷ qs))
    → Linked b.links b.working_set (q ∷ qs)
    → b.expected ≡ length (q ∷ qs)
    → b.count ≡ sub64 b.expected (length (q ∷ qs))
    → drops (q ∷ qs) ≡ length (q ∷ qs)
    → (after : Barrier) × (complete_phase fuel b ≡ some (after, true))
      × (after.expected ≡ 0)
      × ((rounds : ℕ) → window_pass rounds after.expected after.links after.working_set ≡ some 0)
unfolding window_pass iterate
all_dropped_spins b q qs fuel small enough distinct linked all counts every =
    let r : Completed b [] (q ∷ qs) (complete_phase fuel b) =
      complete_phase-Completed b [] q qs fuel small enough distinct linked all counts in
    let none_left : r.after.expected ≡ 0 = omega (arith, r.fewer, every, all) in
    (
      r.after,
      r.result ∙ ap (λ x. some (r.after, x)) (r.schedules ∙ ground (arith, none_left)),
      none_left,
      spin r.after r.early,
    )
  where
    spin :
        (after : Barrier)
        → after.working_set ≡ 0
        → (rounds : ℕ) → window_pass rounds after.expected after.links after.working_set ≡ some 0
    spin after e zero = rw e refl
    spin after e (suc n) = rw e refl
