-- ===== src/Prelude/Sets.antt =====
-- Predicates on lists of numbers, by recursion, and functions updated at one number.
use Prim.Native.Nat.{ℕ, ◌+◌, ◌≤◌}
use mathlib.Core.Path.{◌≡◌}
use mathlib.Core.Logic.{◌≢◌, ◌⊎◌, inl, inr}
use mathlib.Core.List.{List, [], ◌∷◌, ◌++◌}
use native.Mathlib.Omega.{arith}
use zab.Prelude.Tests.{◌==◌, if◌then◌else◌, Bool-cases, ==→≡, ==→≢}
use zab.Prelude.Lists.{reverse_onto}

abbrev pub update {ℓ} : {A : Type ℓ} → (ℕ → A) → ℕ → A → ℕ → A
update f i a j = if i == j then a else f j

abbrev pub NotIn : ℕ → List ℕ → Type 0
NotIn a [] = Unit
NotIn a (x ∷ xs) = (a ≢ x) × NotIn a xs

abbrev pub In : ℕ → List ℕ → Type 0
In a [] = ⊥
In a (x ∷ xs) = (a ≡ x) ⊎ In a xs

abbrev pub Distinct : List ℕ → Type 0
Distinct [] = Unit
Distinct (x ∷ xs) = NotIn x xs × Distinct xs

-- The two lists share no member.
abbrev pub Apart : List ℕ → List ℕ → Type 0
Apart [] ys = Unit
Apart (x ∷ xs) ys = NotIn x ys × Apart xs ys

pub NotIn-append : (a : ℕ) (xs ys : List ℕ) → NotIn a xs → NotIn a ys → NotIn a (xs ++ ys)
NotIn-append a [] ys h k = k
NotIn-append a (x ∷ xs) ys h k = (h.0, NotIn-append a xs ys h.1 k)

pub Apart-cons : (y : ℕ) (xs ys : List ℕ) → NotIn y xs → Apart xs ys → Apart xs (y ∷ ys)
Apart-cons y [] ys h k = tt
Apart-cons y (x ∷ xs) ys h k = ((λ e. h.0 (ground arith), k.0), Apart-cons y xs ys h.1 k.1)

pub In-append : (a : ℕ) (xs ys : List ℕ) → In a (xs ++ ys) → In a xs ⊎ In a ys
In-append a [] ys h = inr h
In-append a (x ∷ xs) ys (inl e) = inl (inl e)
In-append a (x ∷ xs) ys (inr h) = elim (In-append a xs ys h) [ inl i ↦ inl (inr i) | inr i ↦ inr i ]

-- How often `a` stands in a list of numbers.
abbrev pub count : ℕ → List ℕ → ℕ
count a [] = 0
count a (x ∷ xs) = (if a == x then 1 else 0) + count a xs

-- Neither part of a list loses members.
pub count-append :
    (n : ℕ) (first second : List ℕ) → count n first + count n second ≡ count n (first ++ second)
count-append n [] second = omega arith
count-append n (x ∷ first) second = omega (arith, count-append n first second)

pub count-reverse_onto :
    (a : ℕ) (xs ys : List ℕ) → count a (reverse_onto xs ys) ≡ count a xs + count a ys
count-reverse_onto a [] ys = omega arith
count-reverse_onto a (x ∷ xs) ys = omega (arith, count-reverse_onto a xs (x ∷ ys))

pub NotIn-of_count : (a : ℕ) (xs : List ℕ) → count a xs ≡ 0 → NotIn a xs
NotIn-of_count a [] h = tt
NotIn-of_count a (x ∷ xs) h = (λ e. ground arith, NotIn-of_count a xs (ground arith))

pub Distinct-of_count : (xs : List ℕ) → ((a : ℕ) → count a xs ≤ 1) → Distinct xs
Distinct-of_count [] h = tt
Distinct-of_count (x ∷ xs) h =
    (NotIn-of_count x xs (ground (arith, h x)), Distinct-of_count xs (λ a. omega (arith, h a)))

pub Apart-nil : (xs : List ℕ) → Apart xs []
Apart-nil [] = tt
Apart-nil (x ∷ xs) = (tt, Apart-nil xs)

pub In-cases : (a : ℕ) (xs : List ℕ) → In a xs ⊎ NotIn a xs
In-cases a [] = inr tt
In-cases a (x ∷ xs) = elim (Bool-cases (a == x)) [
  | inl e ↦ inl (inl (==→≡ a x e))
  | inr n ↦ elim (In-cases a xs) [ inl i ↦ inl (inr i) | inr o ↦ inr (==→≢ a x n, o) ]
]

pub In-split {ℓ} :
    {P : Type ℓ} (j x : ℕ) (xs : List ℕ)
    → In j (x ∷ xs)
    → (In j xs → P)
    → (NotIn j xs → j ≡ x → P)
    → P
In-split j x xs (inr i) later first = later i
In-split j x xs (inl e) later first = elim (In-cases j xs) [ inl i ↦ later i | inr o ↦ first o e ]
