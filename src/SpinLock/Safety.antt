-- ===== src/SpinLock/Safety.antt =====
-- Mutual exclusion of spin_lock under every schedule, and no thread kept out of a free lock.
use zab.Prelude.{
  ℕ, ◌≡◌, refl, Bool, true, false, List, [], ◌∷◌, arith, update, sym, ◌∙◌, Bool-cases, inl, inr,
}
use zab.SpinLock.{
  Call, lock, try_lock, unlock, Pc, outside, exchanging, spinning, trying, inside, access, System,
  init, turn, run,
}

pub record Inv (s : System) : Type 0 where
  pub unique : (i j : ℕ) → s.pc i ≡ inside → s.pc j ≡ inside → i ≡ j
  pub free : s.held ≡ false → (i : ℕ) → s.pc i ≡ inside → ⊥
  pub owned : s.held ≡ true → (i : ℕ) × (s.pc i ≡ inside)

Inv-init : Inv init
Inv-init = record { unique = λ i j p q. cc; free = λ h i p. cc; owned = λ h. cc }

-- What one access does, whichever thread and call: the only ways in and out.
data Change (held : Bool) (p : Pc) : Bool × Pc → Type 0 where
  enter : {p' : Pc} → held ≡ false → p' ≡ inside → Change held p (true, p')
  leave : {p' : Pc} → p ≡ inside → (p' ≡ inside → ⊥) → Change held p (false, p')
  stay :
      {h' : Bool} {p' : Pc}
      → h' ≡ held
      → (p ≡ inside → p' ≡ inside)
      → (p' ≡ inside → p ≡ inside)
      → Change held p (h', p')

access-Change : (call : Call) (held : Bool) (p : Pc) → Change held p (access call held p)
unfolding access
access-Change lock held outside = stay refl (λ e. cc) (λ e. cc)
access-Change try_lock true outside = stay refl (λ e. cc) (λ e. cc)
access-Change try_lock false outside = stay refl (λ e. cc) (λ e. cc)
access-Change unlock held outside = stay refl (λ e. cc) (λ e. cc)
access-Change call true exchanging = stay refl (λ e. cc) (λ e. cc)
access-Change call false exchanging = enter refl refl
access-Change call true spinning = stay refl (λ e. cc) (λ e. cc)
access-Change call false spinning = stay refl (λ e. cc) (λ e. cc)
access-Change call true trying = stay refl (λ e. cc) (λ e. cc)
access-Change call false trying = enter refl refl
access-Change unlock held inside = leave refl (λ e. cc)
access-Change lock held inside = stay refl (λ e. refl) (λ e. refl)
access-Change try_lock held inside = stay refl (λ e. refl) (λ e. refl)

Change-Inv :
    {held : Bool} {pc : ℕ → Pc} (i : ℕ) {o : Bool × Pc}
    → Change held (pc i) o
    → Inv (record { held = held; pc = pc })
    → Inv (record { held = o.0; pc = update pc i o.1 })
Change-Inv i (enter h e) inv = record {
  unique = λ a b. ground (arith, inv.free h a, inv.free h b);
  free = λ f a. cc;
  owned = λ t. (i, ground arith);
}
Change-Inv i (leave h e) inv = record {
  unique = λ a b. ground (arith, inv.unique a b);
  free = λ f a. ground (arith, inv.unique i a);
  owned = λ t. cc;
}
Change-Inv i (stay h e e') inv = record {
  unique = λ a b. ground (arith, inv.unique a b);
  free = λ f a. ground (arith, inv.free (sym h ∙ f) a, inv.free (sym h ∙ f) i);
  owned = λ t. let (j, at) = inv.owned (sym h ∙ t) in (j, ground arith);
}

pub turn-Inv : {s : System} (i : ℕ) (call : Call) → Inv s → Inv (turn s i call)
unfolding turn
turn-Inv {s} i call inv = Change-Inv i (access-Change call s.held (s.pc i)) inv

pub run-Inv : (schedule : List (ℕ × Call)) {s : System} → Inv s → Inv (run s schedule)
unfolding run
run-Inv [] inv = inv
run-Inv ((i, call) ∷ rest) inv = run-Inv rest (turn-Inv i call inv)

-- Under every schedule of any number of threads, from a new lock: two threads are never inside
-- together, and the flag is set exactly while some thread is inside.
pub exclusion :
    (schedule : List (ℕ × Call))
    → let s = run init schedule in
      ((i j : ℕ) → s.pc i ≡ inside → s.pc j ≡ inside → i ≡ j)
      × (s.held ≡ true → (i : ℕ) × (s.pc i ≡ inside))
      × ((i : ℕ) → s.pc i ≡ inside → s.held ≡ true)
exclusion schedule =
    let inv = run-Inv schedule Inv-init in
    (
      inv.unique,
      inv.owned,
      λ i e. elim (Bool-cases (run init schedule).held) [
        | inl h ↦ h
        | inr f ↦ absurd (inv.free f i e)
      ],
    )

-- From any state that the invariant allows, a thread that is about to exchange on a free lock gets
-- in by its next access, and one that spins gets in by its next two, whatever the calls of others
-- were before.
pub free_lock_is_taken :
    (s : System) (i : ℕ) (call call' : Call)
    → s.held ≡ false
    → (s.pc i ≡ exchanging → (turn s i call).pc i ≡ inside)
      × (s.pc i ≡ spinning → (turn (turn s i call) i call').pc i ≡ inside)
unfolding turn access
free_lock_is_taken s i call call' f = ground arith
