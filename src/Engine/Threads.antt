-- ===== src/Engine/Threads.antt =====
-- The number of threads, and the thread that an event for any thread goes to.
use zab.Prelude.{
  ℕ, zero, suc, ◌+◌, ◌-◌, ◌%◌, ◌^◌, ◌≤◌, ◌<◌, ◌≡◌, ◌==◌, refl, sym, ap, ◌∙◌, Bool, true, ltb, max,
  List, [], ◌∷◌, some, get_elem?, length, arith, Bool-cases, inl, inr, ◌⊎◌,
}
use zab.Engine.{
  Configs, ThreadOption, any, at_least, exact, validate, scan, get_any_thread, any_thread,
  core_count,
}

module _ (cores : ℕ) (few : cores < 2 ^ 16) where
  validate_by :
      (o : ThreadOption) (t : ℕ) (s : Bool) (f : ℕ)
      → t < 2 ^ 16
      → let c : Configs = record { threads = t; opt = o; affinity_set = s; affinity_offset = f } in
        (1 ≤ (validate c cores).threads)
        × ((validate c cores).threads < 2 ^ 16)
        × (validate (validate c cores) cores ≡ validate c cores)
  unfolding validate
  validate_by any t s f h = elim (Bool-cases (cores == 0)) [
    | inl z ↦ rw z (omega arith, omega arith, rw z refl)
    | inr z ↦ rw z (ground (arith, z), few, rw z refl)
  ]
  validate_by at_least t s f h = elim (Bool-cases (max cores t == 0)) [
    | inl z ↦ rw z (omega arith, omega arith, rw (z, none_wanted z, validate) refl)
    | inr z ↦ rw z (ground (arith, z), omega arith, rw (z, again, validate) (rw z refl))
  ]
    where
      none_wanted : (max cores t == 0) ≡ true → max cores 1 ≡ 1
      none_wanted z = ground arith

      again : max cores (max cores t) ≡ max cores t
      again = omega arith
  validate_by exact t s f h = elim (Bool-cases (t == 0)) [
    | inl z ↦ rw z (omega arith, omega arith, rw (z, validate) refl)
    | inr z ↦ rw z (ground (arith, z), h, rw (z, validate) (rw z refl))
  ]

core_count_lem : (hardware processors : ℕ) → core_count hardware processors < 2 ^ 16
unfolding core_count
core_count_lem hardware processors = ground arith

-- `validate` with the number of cores that `core_count` finds leaves at least one thread and at most
-- 2^16 - 1, and validating its result again changes nothing.
pub validate_lem :
    (c : Configs) (hardware processors : ℕ)
    → c.threads < 2 ^ 16
    → (let cores = core_count hardware processors in
        (1 ≤ (validate c cores).threads)
        × ((validate c cores).threads < 2 ^ 16)
        × (validate (validate c cores) cores ≡ validate c cores))
validate_lem c hardware processors h =
    validate_by (core_count hardware processors) (core_count_lem hardware processors) c.opt
      c.threads c.affinity_set c.affinity_offset h

-- Index `i` of `sizes` holds the least of them.
pub record Least (sizes : List ℕ) (i : ℕ) : Type 0 where
  pub size : ℕ
  pub there : get_elem? sizes i ≡ some size
  pub least : (j other : ℕ) → get_elem? sizes j ≡ some other → size ≤ other

-- The loop over the rest of the sizes: it picks a smaller one there, or keeps its choice.
record Picked (sizes : List ℕ) (current min_size thread out : ℕ) : Type 0 where
  size : ℕ
  place :
      ((i : ℕ) × (get_elem? sizes i ≡ some size) × (out ≡ current + i))
      ⊎ ((size ≡ min_size) × (out ≡ thread))
  bound : size ≤ min_size
  least : (j other : ℕ) → get_elem? sizes j ≡ some other → size ≤ other

least-cons :
    (es size : ℕ) (sizes : List ℕ)
    → size ≤ es
    → ((j other : ℕ) → get_elem? sizes j ≡ some other → size ≤ other)
    → (j other : ℕ) → get_elem? (es ∷ sizes) j ≡ some other
    → size ≤ other
least-cons es size sizes h l zero other e = ground (arith, e)
least-cons es size sizes h l (suc j) other e = l j other e

scan-Picked :
    (sizes : List ℕ) (current min_size thread : ℕ)
    → current + length sizes < 2 ^ 16
    → Picked sizes current min_size thread (scan sizes current min_size thread)
unfolding scan
scan-Picked [] current min_size thread h = record {
  size = min_size;
  place = inr (refl, refl);
  bound = omega arith;
  least = λ j other e. cc;
}
scan-Picked (es ∷ sizes) current min_size thread h =
    let here : Picked sizes (suc current) es current (scan sizes (suc current) es current) =
      scan-Picked sizes (suc current) es current (omega arith) in
    let there : Picked sizes (suc current) min_size thread
        (scan sizes (suc current) min_size thread) =
      scan-Picked sizes (suc current) min_size thread (omega arith) in
    let step : suc current % 2 ^ 16 ≡ suc current = omega arith in
    elim (Bool-cases (es == 0)) [
      | inl z ↦
          rw (z, scan)
            (record {
              size = es;
              place = inl (0, refl, omega arith);
              bound = ground (arith, z);
              least = λ j other e. ground (arith, z);
            })
      | inr z ↦ elim (Bool-cases (ltb es min_size)) [
        | inl b ↦
            rw (z, b, step, scan)
              (record {
                size = here.size;
                place = elim here.place [
                  | inl (i, at, out) ↦ inl (suc i, at, omega (arith, out))
                  | inr (same, out) ↦ inl (0, ap some (sym same), omega (arith, out))
                ];
                bound = ground (arith, b, here.bound);
                least = least-cons es here.size sizes here.bound here.least;
              })
        | inr b ↦
            rw (z, b, step, scan)
              (record {
                size = there.size;
                place = elim there.place [
                  | inl (i, at, out) ↦ inl (suc i, at, omega (arith, out))
                  | inr kept ↦ inr kept
                ];
                bound = there.bound;
                least = least-cons es there.size sizes (ground (arith, b, there.bound)) there.least;
              })
      ]
    ]

-- With between one and 2^16 - 1 event loops, of sizes below 2^64 - 1, `get_any_thread` returns the index
-- of a loop, and no loop has fewer events than that one.
pub get_any_thread-Least :
    (sizes : List ℕ)
    → 0 < length sizes
    → length sizes < 2 ^ 16
    → ((j size : ℕ) → get_elem? sizes j ≡ some size → size < 2 ^ 64 - 1)
    → Least sizes (get_any_thread sizes)
unfolding get_any_thread
get_any_thread-Least [] h few small = absurd (omega arith)
get_any_thread-Least (es ∷ sizes) h few small =
    let p : Picked (es ∷ sizes) 0 (2 ^ 64 - 1) any_thread
        (scan (es ∷ sizes) 0 (2 ^ 64 - 1) any_thread) =
      scan-Picked (es ∷ sizes) 0 (2 ^ 64 - 1) any_thread (omega arith) in
    elim p.place [
      | inl (i, at, out) ↦ record {
        size = p.size;
        there = ap (get_elem? (es ∷ sizes)) (out ∙ zero_add i) ∙ at;
        least = p.least;
      }
      | inr (same, out) ↦ absurd (omega (arith, same, p.least 0 es refl, small 0 es refl))
    ]
  where
    zero_add : (i : ℕ) → 0 + i ≡ i
    zero_add i = omega arith
