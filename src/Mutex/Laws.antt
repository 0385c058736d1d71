-- ===== src/Mutex/Laws.antt =====
-- A lock is released once, however its guard was moved.
use zab.Prelude.{ℕ, zero, suc, ◌+◌, ◌≡◌, refl, ◌∙◌, List, [], ◌∷◌, ◌++◌, arith}
use zab.Mutex.{Guard, await_resume, move, destroy, move_at, move_all, releases}

releases-append : (xs ys : List Guard) → releases (xs ++ ys) ≡ releases xs + releases ys
unfolding releases
releases-append [] ys = omega arith
releases-append (x ∷ xs) ys = omega (arith, releases-append xs ys)

releases-move_at : (i : ℕ) (guards : List Guard) → releases (move_at i guards) ≡ releases guards
unfolding releases move_at move destroy
releases-move_at i [] = refl
releases-move_at zero (g ∷ rest) =
    ground (arith, releases-append rest (record { sem = g.sem } ∷ []))
releases-move_at (suc i) (g ∷ rest) = omega (arith, releases-move_at i rest)

releases-move_all :
    (moves : List ℕ) (guards : List Guard) → releases (move_all moves guards) ≡ releases guards
unfolding move_all
releases-move_all [] guards = refl
releases-move_all (i ∷ more) guards =
    releases-move_all more (move_at i guards) ∙ releases-move_at i guards

-- A guard that a lock returned, moved on any number of times from any of the objects that hold or
-- held it: when all of them are destroyed the semaphore is released exactly once.
pub released_once : (moves : List ℕ) → releases (move_all moves (await_resume ∷ [])) ≡ 1
released_once moves =
    releases-move_all moves (await_resume ∷ []) ∙ (unfold releases destroy in refl)
