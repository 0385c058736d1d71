-- ===== src/Observable/Owed.antt =====
-- Who has still to count the latch of an emission down, and what holds between two moves.
use zab.Prelude.{
  ℕ, suc, ◌+◌, ◌^◌, ◌≤◌, ◌<◌, ◌≡◌, ◌≢◌, ◌==◌, Bool, true, false, Option, none, some, List, [], ◌∷◌,
  ◌++◌, refl, arith, Bool-cases, inl, inr, sym, ◌∙◌, if◌then◌else◌, count, length, total,
}
use mathlib.Core.Bool.{false≢true}
use zab.Observable.{Slot, Subject, erase, suspend_on}
use zab.Observable.Latches.{IsOpen}

abbrev pub on_list : ℕ → Slot → ℕ
on_list e slot = count e slot.results

-- The observers that the running emission has still to visit, and its emitter.
abbrev pub pending : Option (ℕ × List ℕ) → ℕ → ℕ
pending none e = 0
pending (some (running, rest)) e = if e == running then suc (length rest) else 0

-- The results that the destructor of an observer has still to count down.
abbrev pub to_count : List ℕ → (counted : Bool) → List ℕ
to_count [] counted = []
to_count (x ∷ xs) true = xs
to_count (x ∷ xs) false = x ∷ xs

-- Who has still to count the latch of the emission `e` down.
abbrev pub owed : Subject → ℕ → ℕ
owed s e =
    total (on_list e) s.made s.slots
    + (count e (to_count s.leaving s.counted)
        + (s.guards e + (pending s.emitting e + s.to_arrive e)))

pub to_count-false : (xs : List ℕ) → to_count xs false ≡ xs
to_count-false [] = refl
to_count-false (x ∷ xs) = refl

abbrev pub Below : ℕ → List ℕ → Type 0
Below n [] = Unit
Below n (x ∷ xs) = (x < n) × Below n xs

pub Below-append : (n o : ℕ) (xs : List ℕ) → Below n xs → o < n → Below n (xs ++ (o ∷ []))
Below-append n o [] b h = (h, tt)
Below-append n o (x ∷ xs) b h = (b.0, Below-append n o xs b.1 h)

pub Below-suc : (n : ℕ) (xs : List ℕ) → Below n xs → Below (suc n) xs
Below-suc n [] b = tt
Below-suc n (x ∷ xs) b = (omega arith, Below-suc n xs b.1)

pub Below-erase : (n o : ℕ) (xs : List ℕ) → Below n xs → Below n (erase xs o)
Below-erase n o [] b = tt
Below-erase n o (x ∷ xs) b = elim (Bool-cases (x == o)) [
  | inl z ↦ rw z b.1
  | inr z ↦ rw z (b.0, Below-erase n o xs b.1)
]

pub length-erase : (o : ℕ) (xs : List ℕ) → length (erase xs o) ≤ length xs
length-erase o [] = omega arith
length-erase o (x ∷ xs) = ground (arith, length-erase o xs)

pub length-add : (o : ℕ) (xs : List ℕ) → length (xs ++ (o ∷ [])) ≡ suc (length xs)
length-add o [] = refl
length-add o (x ∷ xs) = omega (arith, length-add o xs)

-- Where the running emission stands.
abbrev pub Visits : ℕ → ℕ → Option (ℕ × List ℕ) → Type 0
Visits made emitted none = Unit
Visits made emitted (some (running, rest)) = (running < emitted) × Below made rest

pub visiting_suc :
    (made emitted : ℕ) (k : Option (ℕ × List ℕ))
    → Visits made emitted k
    → Visits (suc made) emitted k
visiting_suc made emitted none v = tt
visiting_suc made emitted (some (running, rest)) v = (v.0, Below-suc made rest v.1)

pub append-ne : (xs : List ℕ) (x : ℕ) → xs ++ (x ∷ []) ≢ []
append-ne [] x e = cc
append-ne (y ∷ xs) x e = cc

pub suspend_on-results : (xs : List ℕ) (slot : Slot) → (suspend_on xs slot).results ≡ slot.results
suspend_on-results [] slot = refl
suspend_on-results (e ∷ xs) slot = refl

pub suspend_on-finds :
    (xs : List ℕ) (slot : Slot) → slot.taking ≡ false → (suspend_on xs slot).taking ≡ true → xs ≢ []
suspend_on-finds [] slot f t e = false≢true (sym f ∙ t)
suspend_on-finds (x ∷ xs) slot f t e = cc

pub record IsCounted (s : Subject) : Type 0 where
  pub counts : (e : ℕ) → (s.latch e).count ≡ owed s e
  pub open_latch : (e : ℕ) → IsOpen (s.begun e) (s.latch e)
  pub unused : (e : ℕ) → s.emitted ≤ e → ((s.latch e).count ≡ 0) × (s.begun e ≡ false)
  pub few : suc (length s.observers) < 2 ^ 63
  pub known : Below s.made s.observers
  pub visiting : Visits s.made s.emitted s.emitting
  pub before : (e : ℕ) → 1 ≤ pending s.emitting e → s.to_arrive e ≡ 0
  pub finds : (o : ℕ) → (s.slots o).taking ≡ true → (s.slots o).results ≢ []
