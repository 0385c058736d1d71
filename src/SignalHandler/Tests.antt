-- ===== src/SignalHandler/Tests.antt =====
-- A handler for two signals.
use zab.Prelude.{ℕ, ◌≡◌, true, false, List, [], ◌∷◌, ◌++◌, refl, arith}
use zab.SignalHandler.{SignalHandler, create, got, to_char, run}
use zab.SignalHandler.Filing.{Call, filed_for}
use zab.SignalHandler.Delivery.{reads_of, sigkill, executions, signals_delivered}

abbrev calls : List (Call ℕ)
calls =
    record { signal = 2; previous = 0; thread = 0; functor = 70 }
    ∷ (record { signal = 15; previous = 0; thread = 1; functor = 71 }
        ∷ (record { signal = 2; previous = 0; thread = 3; functor = 72 } ∷ []))

abbrev filed : SignalHandler ℕ
filed = record (create true) { handlers = λ j. filed_for j calls }

signals_delivered_example :
    run filed (reads_of (2 ∷ (15 ∷ [])) ++ (got (to_char sigkill) true ∷ []))
    ≡ (record filed { running = false }, executions filed ((2 ∷ (15 ∷ [])) ++ (sigkill ∷ [])))
signals_delivered_example =
    signals_delivered filed (2 ∷ (15 ∷ [])) [] refl (omega arith, (omega arith, tt))
