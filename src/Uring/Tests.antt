-- ===== src/Uring/Tests.antt =====
-- A ring of two entries.
use zab.Prelude.{
  ℕ, ◌≡◌, ltb, List, [], ◌∷◌, ◌++◌, Option, none, some, if◌then◌else◌, length, Bool-cases, inl, inr,
  arith,
}
use zab.Uring.{Request, IoUring, Io, batch}
use zab.Uring.Completion.{batch_delivers, delivered}

abbrev append_two : List (Request × ℕ) → Request → ℕ → Option (List (Request × ℕ))
append_two ring r d = if ltb (length ring) 2 then some (ring ++ ((r, d) ∷ [])) else none

append_two_lem :
    (ring ring' : List (Request × ℕ)) (r : Request) (d : ℕ)
    → append_two ring r d ≡ some ring'
    → ring' ≡ ring ++ ((r, d) ∷ [])
append_two_lem ring ring' r d e = elim (Bool-cases (ltb (length ring) 2)) [
  | inl h ↦ let taken : some (ring ++ ((r, d) ∷ [])) ≡ some ring' = rw h at e in cc
  | inr h ↦ let full : ◌≡◌ {A = Option (List (Request × ℕ))} none (some ring') = rw h at e in cc
]

abbrev two_entries : IoUring
two_entries = record {
  Ring = List (Request × ℕ);
  enqueue = append_two;
  queue = λ ring. ring;
  queue-enqueue = append_two_lem;
}

-- Coroutines 100 and 101 wait on the events at 8 and 16.
abbrev two_waiting : Io two_entries
two_waiting = record {
  ring = [];
  handles = λ a. if ltb a 16 then 100 else 101;
  results = λ a. 0;
  tokens = λ a. 0;
  executed = [];
}

batch_delivers_example :
    (batch two_entries two_waiting ((8, 5) ∷ (16, 6) ∷ [])).executed
    ≡ [] ++ delivered two_waiting.handles ((8, 5) ∷ (16, 6) ∷ [])
batch_delivers_example =
    batch_delivers two_entries two_waiting ((8, 5) ∷ (16, 6) ∷ []) (omega arith)
