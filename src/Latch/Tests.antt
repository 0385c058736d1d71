-- ===== src/Latch/Tests.antt =====
-- A latch for three.
use zab.Prelude.{◌≡◌, refl, false, [], ◌∷◌}
use zab.Latch.{create, count_down, try_wait, count_downs}

opened : try_wait (count_downs (create 3) (1 ∷ 2 ∷ [])) ≡ false
unfolding try_wait count_downs count_down
opened = refl
