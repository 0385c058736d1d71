-- ===== src/Observable/Tests.antt =====
-- One observer and one emission, with the observer alive and destroyed.
use zab.Prelude.{◌∷◌, ◌≤◌, ◌≡◌, ◌≢◌, ◌==◌, sym, refl, arith, true, [], count, one_if, if◌then◌else◌}
use zab.Latch.{count_down}
use zab.Observable.{
  Subject, init, connect, disconnect, abandon, emit, visit, unlock, arrive, suspend, take, release,
  connects, disconnects, emits, visits, unlocks, arrives, awaits, takes, releases, Reach, new,
  later,
}
use zab.Observable.Owed.{owed}
use zab.Observable.Emissions.{
  Reach-IsCounted, emitter_resumed, at_counted, results_outlive, opens_before_next,
}

-- The observer waits before the emission.
abbrev waiting : Subject
waiting =
    let s = connect init in
    record s { slots = λ o. if 0 == o then suspend (s.slots 0) else s.slots o }

abbrev ended : Subject
ended = release (take (arrive (unlock (visit (emit waiting) 0 0 []) 0) 0) 0 0 []) 0

ended-Reach : Reach ended
ended-Reach =
    later
      (later
        (later
          (later
            (later
              (later
                (later (later new (connects refl refl (omega arith))) (awaits 0 (omega arith) refl))
                (emits refl refl (omega arith)))
              (visits refl))
            (unlocks refl))
          (arrives 0 refl))
        (takes (omega arith) refl refl))
      (releases 0 (omega arith))

emitter_resumed_example :
    (ended.latch 0).unpaused ≡ (if owed ended 0 == 0 then one_if (ended.begun 0) else 0)
emitter_resumed_example = emitter_resumed ended-Reach 0

results_outlive_example :
    (1 ≤ (ended.latch 0).unpaused
      → (count 0 (ended.slots 0).results ≡ 0)
        × ((ended.guards 0 ≡ 0)
            × (count 0 ended.leaving ≡ at_counted ended.leaving ended.counted 0)))
    × ((ended.slots 0).taking ≡ true → (ended.slots 0).results ≢ [])
results_outlive_example = results_outlive ended-Reach 0 0 (omega arith)

-- The observer does not wait, and is destroyed when the emitter has arrived.
abbrev destroyed : Subject
destroyed = disconnect (arrive (unlock (visit (emit (connect init)) 0 0 []) 0) 0) 0

destroyed-Reach : Reach destroyed
destroyed-Reach =
    later
      (later
        (later
          (later
            (later (later new (connects refl refl (omega arith))) (emits refl refl (omega arith)))
            (visits refl))
          (unlocks refl))
        (arrives 0 refl))
      (disconnects 0 refl refl (omega arith) refl)

-- Its result is the last that is owed.
destroyed-owed : owed destroyed 0 ≡ 1
unfolding count_down
destroyed-owed = sym ((Reach-IsCounted destroyed-Reach).counts 0)

opens_before_next_example :
    (((destroyed.latch 0).unpaused ≡ 0) × (((abandon destroyed 0).latch 0).unpaused ≡ 1))
    × (((abandon destroyed 0).leaving ≡ 0 ∷ []) × ((abandon destroyed 0).counted ≡ true))
opens_before_next_example = opens_before_next destroyed-Reach 0 [] refl refl destroyed-owed
