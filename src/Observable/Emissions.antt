-- ===== src/Observable/Emissions.antt =====
-- When the latch of an emission opens, and who is left then with what its emitter frees.
use zab.Prelude.{
  ℕ, ◌+◌, List, ==-self, ◌∷◌, Bool, false, ◌≤◌, ◌<◌, ◌≡◌, ◌≢◌, ◌==◌, true, [], refl, arith, ap, ◌∙◌,
  if◌then◌else◌, one_if, count, total-zero, le-total,
}
use zab.Observable.{
  new_slot, Subject, abandon, Step, connects, disconnects, abandons, goes_on, emits, visits,
  unlocks, arrives, awaits, takes, releases, Reach, new, later,
}
use zab.Observable.Latches.{count_down-IsOpen}
use zab.Observable.Owed.{on_list, to_count, owed, IsCounted}
use zab.Observable.Counting.{
  connect-IsCounted, disconnect-IsCounted, abandon-IsCounted, to_next-IsCounted, visit-IsCounted,
  unlock-IsCounted, emit-IsCounted, arrive-IsCounted, release-IsCounted, take-IsCounted,
  await-IsCounted,
}

Step-IsCounted : {s t : Subject} → IsCounted s → Step s t → IsCounted t
Step-IsCounted c (connects q l h) = connect-IsCounted c h
Step-IsCounted c (disconnects o q l low t) = disconnect-IsCounted c o low l
Step-IsCounted c (abandons {e} {rest} q f) = abandon-IsCounted c e rest q f
Step-IsCounted c (goes_on {e} {rest} q f) = to_next-IsCounted c e rest q f
Step-IsCounted c (emits q l h) = emit-IsCounted c q
Step-IsCounted c (visits {e} {o} {rest} q) = visit-IsCounted c e o rest q
Step-IsCounted c (unlocks {e} q) = unlock-IsCounted c e q
Step-IsCounted c (arrives e q) = arrive-IsCounted c e q
Step-IsCounted c (awaits o low q) = await-IsCounted c o low q
Step-IsCounted c (takes {o} {e} {rest} low t q) = take-IsCounted c o e rest low q
Step-IsCounted c (releases e q) = release-IsCounted c e q

pub Reach-IsCounted : {s : Subject} → Reach s → IsCounted s
Reach-IsCounted new = record {
  counts = λ e. omega (arith, total-zero (on_list e) 0 (λ o. new_slot) (λ o. refl));
  open_latch =
      λ e. record { small = omega arith; opened = refl; started = λ h. absurd (omega arith) };
  unused = λ e h. (refl, refl);
  few = omega arith;
  known = tt;
  visiting = tt;
  before = λ e h. refl;
  finds = λ o t. cc;
}
Reach-IsCounted (later r st) = Step-IsCounted (Reach-IsCounted r) st

-- In every interleaving the latch of an emission that has begun has been opened once if nobody owes
-- it a count down: no observer has it on its list or is still to be visited, no destructor of an
-- observer is still to count it down, no guard of its result lives, and its emitter has arrived. Else
-- it has not been opened.
pub emitter_resumed :
    {s : Subject}
    → Reach s
    → (e : ℕ) → (s.latch e).unpaused ≡ (if owed s e == 0 then one_if (s.begun e) else 0)
emitter_resumed {s} r e =
    let c = Reach-IsCounted r in
    (c.open_latch e).opened ∙ ap (λ n. if n == 0 then one_if (s.begun e) else 0) (c.counts e)

-- How often the result of the emission `e` is the one that a destructor has counted down and not left.
abbrev pub at_counted : List ℕ → (counted : Bool) → ℕ → ℕ
at_counted [] counted e = 0
at_counted (x ∷ xs) false e = 0
at_counted (x ∷ xs) true e = if x == e then 1 else 0

to_count-at_counted :
    (e : ℕ) (xs : List ℕ) (counted : Bool)
    → count e xs ≡ count e (to_count xs counted) + at_counted xs counted e
to_count-at_counted e [] counted = refl
to_count-at_counted e (x ∷ xs) true = ground arith
to_count-at_counted e (x ∷ xs) false = omega arith

-- Once the latch of an emission is open, and its emitter may free the results, no observer has one
-- of them on its list, no guard refers to one, and the destructor of an observer has at most the one
-- that it has just counted down; and a coroutine that goes on to `await_resume` finds a result.
pub results_outlive :
    {s : Subject}
    → Reach s
    → (e o : ℕ) → o < s.made
    → (1 ≤ (s.latch e).unpaused
        → (count e (s.slots o).results ≡ 0)
          × ((s.guards e ≡ 0) × (count e s.leaving ≡ at_counted s.leaving s.counted e)))
      × ((s.slots o).taking ≡ true → (s.slots o).results ≢ [])
results_outlive {s} r e o low =
    let c = Reach-IsCounted r in
    (
      λ h.
          let free : owed s e ≡ 0 = ground (arith, emitter_resumed r e, h) in
          (
            omega (arith, free, le-total (on_list e) s.made s.slots o low),
            (omega (arith, free), omega (arith, free, to_count-at_counted e s.leaving s.counted)),
          ),
      c.finds o,
    )

-- Where the destructor of an observer owes the last count down of an emission, that count down opens
-- the latch, and the result is still the one whose `next_` the destructor is then to read.
pub opens_before_next :
    {s : Subject}
    → Reach s
    → (e : ℕ) (rest : List ℕ) → s.leaving ≡ e ∷ rest
    → s.counted ≡ false
    → owed s e ≡ 1
    → (((s.latch e).unpaused ≡ 0) × (((abandon s e).latch e).unpaused ≡ 1))
      × (((abandon s e).leaving ≡ e ∷ rest) × ((abandon s e).counted ≡ true))
opens_before_next {s} r e rest q f last =
    let c = Reach-IsCounted r in
    let left : (s.latch e).count ≡ 1 = c.counts e ∙ last in
    let (opens, less) =
      count_down-IsOpen (s.begun e) (s.latch e) (c.open_latch e) (omega (arith, left)) in
    (
      (
        ground (arith, (c.open_latch e).opened, left),
        rw (==-self e) (
            ground
              (arith, opens.opened, less, left, (c.open_latch e).started (omega (arith, left)))),
      ),
      (q, refl),
    )
