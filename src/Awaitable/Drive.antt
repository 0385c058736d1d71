-- ===== src/Awaitable/Drive.antt =====
-- A stateful awaitable whose functor and environment lower a measure with every notification ends.
use zab.Prelude.{ℕ, zero, suc, ◌≤◌, ◌<◌, ◌≡◌, refl, some, arith}
use zab.Awaitable.{Stateful, Outcome, waits, resumes, notify, drive}

module _ {ℓ κ} {S : Type ℓ} {E : Type κ} (W : E → S → Type 0) (R : E → S → Type 0)
    (measure : E → S → ℕ) where
  -- An outcome is over in a state that `R` allows, or waits in one that `W` does, with a measure below
  -- `n`.
  abbrev pub IsFine : ℕ → E → Outcome S → Type 0
  IsFine n e (waits s) = W e s × (measure e s < n)
  IsFine n e (resumes s) = R e s

  IsFine-le : (m n : ℕ) (e : E) (o : Outcome S) → m ≤ n → IsFine m e o → IsFine n e o
  IsFine-le m n e (waits s) h k = (k.0, omega arith)
  IsFine-le m n e (resumes s) h k = k

  pub drive_lem :
      (f : Stateful S) (env : E → S → E × ℕ)
      → ((e : E) (s : S) → W e s → IsFine (measure e s) (env e s).0 (notify f s (env e s).1))
      → (fuel : ℕ) (e : E) (o : Outcome S) → IsFine fuel e o
      → (e' : E) × (s' : S) × (drive f env fuel e o ≡ some (e', s')) × R e' s'
  unfolding drive
  drive_lem f env step fuel e (resumes s) k = (e, s, refl, k)
  drive_lem f env step zero e (waits s) k = absurd (omega arith)
  drive_lem f env step (suc fuel) e (waits s) k =
      drive_lem f env step fuel (env e s).0 (notify f s (env e s).1) (
        IsFine-le (measure e s) fuel (env e s).0 (notify f s (env e s).1) (omega arith)
          (step e s k.0))
