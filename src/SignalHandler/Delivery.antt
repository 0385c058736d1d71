-- ===== src/SignalHandler/Delivery.antt =====
-- Signals reach their handlers through the pipe.
use zab.Prelude.{
  ℕ, ◌<◌, ◌≡◌, true, false, List, [], ◌∷◌, ◌++◌, map, refl, arith, ap, ◌∙◌, if◌then◌else◌,
}
use zab.SignalHandler.{SignalHandler, Execution, Read, got, to_char, to_int, execute_all, loop, run}

-- The reads of the bytes that the installed function writes for the signals.
abbrev pub reads_of : List ℕ → List Read
reads_of [] = []
reads_of (signal ∷ rest) = got (to_char signal) false ∷ reads_of rest

abbrev pub AllBelow : ℕ → List ℕ → Type 0
AllBelow n [] = Unit
AllBelow n (x ∷ xs) = (x < n) × AllBelow n xs

to_int-to_char : (signal : ℕ) → signal < 128 → to_int (to_char signal) ≡ signal
to_int-to_char signal h = ground arith

-- The byte that `stop` writes, SIGKILL.
abbrev pub sigkill : ℕ
sigkill = 9

module _ {F : Type 0} where
  -- A functor with its signal, on the thread that it was filed with.
  abbrev pub execution : ℕ → ℕ × F → Execution F
  execution signal h = record { thread = h.0; functor = h.1; signal = signal }

  -- One execution for each handler of each signal, in the order of the signals.
  abbrev pub executions : SignalHandler F → List ℕ → List (Execution F)
  executions s [] = []
  executions s (signal ∷ rest) = map (execution signal) (s.handlers signal) ++ executions s rest

  execute_all-map :
      (signal : ℕ) (hs : List (ℕ × F)) → execute_all signal hs ≡ map (execution signal) hs
  execute_all-map signal [] = refl
  execute_all-map signal (h ∷ hs) = ap (λ l. execution signal h ∷ l) (execute_all-map signal hs)

  abbrev on : SignalHandler F → SignalHandler F
  on s = record s { running = true }

  loop-step :
      (s : SignalHandler F) (signal : ℕ) (rest : List Read)
      → signal < 128
      → loop (on s) (got (to_char signal) false ∷ rest)
        ≡ ((loop (on s) rest).0, map (execution signal) (s.handlers signal) ++ (loop (on s) rest).1)
  unfolding loop
  loop-step s signal rest h =
      rw (to_int-to_char signal h, execute_all-map signal (s.handlers signal)) refl

  loop-end :
      (s : SignalHandler F) (more : List Read)
      → loop (on s) (got (to_char sigkill) true ∷ more)
        ≡ (record s { running = false }, executions s (sigkill ∷ []))
  unfolding loop
  loop-end s [] = rw (execute_all-map sigkill (s.handlers sigkill)) refl
  loop-end s (r ∷ more) = rw (execute_all-map sigkill (s.handlers sigkill)) refl

  loop-reads_of :
      (s : SignalHandler F) (signals : List ℕ) (more : List Read)
      → AllBelow 128 signals
      → loop (on s) (reads_of signals ++ (got (to_char sigkill) true ∷ more))
        ≡ (record s { running = false }, executions s (signals ++ (sigkill ∷ [])))
  loop-reads_of s [] more b = loop-end s more
  loop-reads_of s (signal ∷ rest) more b =
      loop-step s signal (reads_of rest ++ (got (to_char sigkill) true ∷ more)) b.0
      ∙ ap
          (λ (o : SignalHandler F × List (Execution F)).
            (o.0, map (execution signal) (s.handlers signal) ++ o.1))
          (loop-reads_of s rest more b.1)

  -- Signals below 128 that are written to the pipe as characters, and read back, reach `run` of the
  -- active handler as themselves: it executes the handlers of each, in order, and then those of the
  -- signal that `stop` writes, and ends without another read.
  pub signals_delivered :
      (s : SignalHandler F) (signals : List ℕ) (more : List Read)
      → s.active ≡ true
      → AllBelow 128 signals
      → run s (reads_of signals ++ (got (to_char sigkill) true ∷ more))
        ≡ (record s { running = false }, executions s (signals ++ (sigkill ∷ [])))
  unfolding run
  signals_delivered s signals more a b =
      ap
        (λ active.
          if active
          then loop (on s) (reads_of signals ++ (got (to_char sigkill) true ∷ more))
          else (s, []))
        a
      ∙ loop-reads_of s signals more b
