-- ===== src/Network/Ownership.antt =====
-- The use of any number of network operations, each by its number.
use zab.Prelude.{ℕ, ◌<◌, ◌==◌, List, [], ◌∷◌, ◌++◌, Option, none, some, if◌then◌else◌, update}
use zab.Network.{
  NetworkOperation, Background, owner, is_valid, reset, move, move_assign, set_descriptor,
  close_resume,
}

-- What a program does with the object number `i`.
pub data Command : Type 0 where
  construct : (i sd : ℕ) → Command
  move_construct : (i from : ℕ) → Command
  assign : (i from : ℕ) → Command
  set : (i sd : ℕ) → Command
  close : (i result : ℕ) → Command
  destroy : (i : ℕ) → Command

-- The objects that are alive, what is left to the background, the descriptors that `close` has closed,
-- and those that were handed over to an object.
pub record World : Type 0 where
  pub objects : ℕ → Option NetworkOperation
  pub background : Background
  pub closed : List ℕ
  pub given : List ℕ

abbrev pub put : World → ℕ → Option NetworkOperation → World
put w i o = record w { objects = update w.objects i o }

-- A command on an object that is not alive, or a constructor on one that is, does nothing.
unfoldable pub step : World → Command → World
step w (construct i sd) = elim (w.objects i) [
  | some o ↦ w
  | none ↦ record w { objects = update w.objects i (some (owner sd)); given = w.given ++ (sd ∷ []) }
]
step w (move_construct i from) = elim (w.objects i) [
  | some o ↦ w
  | none ↦ elim (w.objects from) [
    | none ↦ w
    | some o ↦ put (put w i (some (move o).0)) from (some (move o).1)
  ]
]
step w (assign i from) = if i == from then w else elim (w.objects i) [
  | none ↦ w
  | some to ↦ elim (w.objects from) [
    | none ↦ w
    | some o ↦
        let out = move_assign to o w.background in
        record w {
          objects = update (update w.objects i (some out.0)) from (some out.1);
          background = out.2;
        }
  ]
]
step w (set i sd) = elim (w.objects i) [
  | none ↦ w
  | some o ↦
      let (o', b) = set_descriptor o sd w.background in
      record w {
        objects = update w.objects i (some o');
        background = b;
        given = w.given ++ (sd ∷ []);
      }
]
step w (close i result) = elim (w.objects i) [
  | none ↦ w
  | some o ↦
      if is_valid o.sd
      then record w {
        objects = update w.objects i (some (close_resume o result).0);
        closed = if result == 0 then w.closed ++ (o.sd ∷ []) else w.closed;
      }
      else w
]
step w (destroy i) = elim (w.objects i) [
  | none ↦ w
  | some o ↦ record w { objects = update w.objects i none; background = (reset o w.background).1 }
]

unfoldable pub run : World → List Command → World
run w [] = w
run w (c ∷ commands) = run (step w c) commands

-- The objects that a command names.
abbrev pub Below : ℕ → Command → Type 0
Below n (construct i sd) = i < n
Below n (move_construct i from) = (i < n) × (from < n)
Below n (assign i from) = (i < n) × (from < n)
Below n (set i sd) = i < n
Below n (close i result) = i < n
Below n (destroy i) = i < n

abbrev pub AllBelow : ℕ → List Command → Type 0
AllBelow n [] = Unit
AllBelow n (c ∷ commands) = Below n c × AllBelow n commands

-- No objects yet.
abbrev pub fresh : World
fresh = record {
  objects = λ i. none;
  background = record { closing = []; cancelling = [] };
  closed = [];
  given = [];
}
