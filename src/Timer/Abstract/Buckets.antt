-- ===== src/Timer/Abstract/Buckets.antt =====
-- What the operations on the map do to the bag of its sleepers.
use zab.Prelude.{
  ℕ, ◌≡◌, refl, ◌==◌, ltb, leb, false, List, [], ◌∷◌, ◌++◌, some, if◌then◌else◌, arith, ap,
  Bool-cases, inl, inr, ==→≡, ≢→==, ◌≤◌,
}
use zab.Timer.Buckets.{Map, Waiter, find, emplace, append_at, expire, Ascends}
use zab.Timer.Abstract.{amount, Same, under, entries, amount-append}

under-snoc :
    (m handle thread : ℕ) (ws : List Waiter)
    → under m (ws ++ ((handle, thread) ∷ [])) ≡ under m ws ++ ((m, handle) ∷ [])
under-snoc m handle thread [] = refl
under-snoc m handle thread (w ∷ ws) = rw (under-snoc m handle thread ws) refl

pub emplace-Same :
    (m handle thread : ℕ) (map : Map)
    → Same (entries (emplace m ((handle, thread) ∷ []) map)) ((m, handle) ∷ entries map)
unfolding emplace
emplace-Same m handle thread [] mark h = refl
emplace-Same m handle thread ((k, ws) ∷ rest) mark h = elim (Bool-cases (ltb m k)) [
  | inl z ↦ rw z refl
  | inr z ↦ rw z (
      omega (
        arith,
        emplace-Same m handle thread rest mark h,
        amount-append mark h (under k ws) (entries (emplace m ((handle, thread) ∷ []) rest)),
        amount-append mark h (under k ws) (entries rest),
      ))
]

pub append_at-Same :
    (m handle thread : ℕ) (ws : List Waiter) (map : Map)
    → find m map ≡ some ws
    → Same (entries (append_at m (handle, thread) map)) ((m, handle) ∷ entries map)
unfolding append_at find
append_at-Same m handle thread ws [] f mark h = cc
append_at-Same m handle thread ws ((k, vs) ∷ rest) f mark h = elim (Bool-cases (k == m)) [
  | inl z ↦ rw z (
      ground (
        arith,
        ==→≡ k m z,
        ap (amount mark h) (under-snoc k handle thread vs),
        amount-append mark h (under k vs) ((k, handle) ∷ []),
        amount-append mark h (under k (vs ++ ((handle, thread) ∷ []))) (entries rest),
        amount-append mark h (under k vs) (entries rest),
      ))
  | inr z ↦ rw z (
      omega (
        arith,
        append_at-Same m handle thread ws rest (rw z at f) mark h,
        amount-append mark h (under k vs) (entries (append_at m (handle, thread) rest)),
        amount-append mark h (under k vs) (entries rest),
      ))
]

amount-under :
    (mark h m : ℕ) (ws : List Waiter) → (m == mark) ≡ false → amount mark h (under m ws) ≡ 0
amount-under mark h m [] e = refl
amount-under mark h m (w ∷ ws) e = rw e (omega (arith, amount-under mark h m ws e))

-- Nobody sleeps till a mark up to the one that all are above.
amount-low :
    (now mark h : ℕ) (map : Map) → Ascends now map → mark ≤ now → amount mark h (entries map) ≡ 0
amount-low now mark h [] a l = refl
amount-low now mark h ((m, ws) ∷ rest) a l = omega (
  arith,
  amount-append mark h (under m ws) (entries rest),
  amount-under mark h m ws (≢→== m mark (λ e. omega (arith, a.0, e))),
  amount-low m mark h rest a.1 (omega (arith, a.0)),
)

pub amount-expire :
    (now low mark h : ℕ) (map : Map)
    → Ascends low map
    → amount mark h (entries (expire now map).1)
      ≡ (if leb mark now then 0 else amount mark h (entries map))
unfolding expire
amount-expire now low mark h [] a = ground arith
amount-expire now low mark h ((m, ws) ∷ rest) a =
    let left = amount-expire now m mark h rest a.1 in
    elim (Bool-cases (leb m now)) [
      | inl z ↦ elim (Bool-cases (leb mark now)) [
        | inl y ↦ rw (z, y) (let zero_left = rw y at left in zero_left)
        | inr y ↦
            let same = rw y at left in
            let differ : (m == mark) ≡ false = ≢→== m mark (λ e. ground (arith, z, y, e)) in
            rw (z, y)
              (omega (
                arith,
                same,
                amount-append mark h (under m ws) (entries rest),
                amount-under mark h m ws differ,
              ))
      ]
      | inr z ↦ elim (Bool-cases (leb mark now)) [
        | inl y ↦
            rw (z, y)
              (amount-low now mark h ((m, ws) ∷ rest) (ground (arith, z), a.1) (ground (arith, y)))
        | inr y ↦ rw (z, y) refl
      ]
    ]
