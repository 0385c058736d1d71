-- ===== src/Network/Tests.antt =====
-- Concrete network operations.
use zab.Prelude.{◌+◌, ◌≡◌, refl, List, [], ◌∷◌, count, total, arith}
use zab.Network.{background_close, reset, move, move_assign, close_resume}
use zab.Network.Ownership.{
  Command, construct, move_construct, assign, close, destroy, step, run, fresh,
}
use zab.Network.Accounts.{owns, accounted_once}

-- Object 0 gets descriptor 7 and object 1 descriptor 8; 0 is moved into 2, and 1 into 2, which closes 7;
-- then 2 closes 8.
abbrev moves : List Command
moves =
    construct 0 7
    ∷ construct 1 8
    ∷ move_construct 2 0
    ∷ assign 2 1
    ∷ close 2 0
    ∷ destroy 0
    ∷ destroy 1
    ∷ destroy 2
    ∷ []

background_7 : (run fresh moves).background.closing ≡ 7 ∷ []
unfolding run step move move_assign reset background_close close_resume
background_7 = refl

closed_8 : (run fresh moves).closed ≡ 8 ∷ []
unfolding run step move move_assign reset background_close close_resume
closed_8 = refl

accounted_once_example :
    (let w = run fresh moves in
      total (owns 7) 3 w.objects + (count 7 w.background.closing + count 7 w.closed)
      ≡ count 7 w.given)
accounted_once_example = accounted_once 7 (omega arith) 3 moves (omega arith)
