-- ===== src/FirstOf/Winner.antt =====
-- Which result `first_of` returns, and that it returns once.
use zab.Prelude.{
  one_if, one_if-zero, total-positive, ℕ, ◌+◌, ◌≤◌, ◌<◌, ◌≡◌, ◌==◌, refl, sym, ◌∙◌, ap, arith, Bool,
  true, false, some, inl, inr, Bool-cases, ==→≡, ==→≢, total, total-update, total-zero, le-total,
}
use mathlib.Core.Bool.{false≢true}
use zab.FirstOf.{
  Pc, fresh, running, won, stored, over, Race, start, exchange, store, unpause, Step, starts,
  exchanges, stores, unpauses, Reach, begun, later,
}

module _ {A : Type 0} where
  -- A function that has the pack and did not unpause yet.
  abbrev pub winning : Pc A → ℕ
  winning (won value) = 1
  winning stored = 1
  winning _ = 0

  -- A function that did not reach its exchange.
  abbrev pub early : Pc A → Bool
  early fresh = true
  early running = true
  early _ = false

  module _ (n : ℕ) where
    -- The pack is with the pointer, with one function, or used; and the result is that of its taker.
    pub record IsFair (r : Race A) : Type 0 where
      pub one_pack : one_if r.handle + (total winning n r.pc + r.resumed) ≡ 1
      pub in_order : (i : ℕ) → r.started ≤ i → r.pc i ≡ fresh
      pub nobody : r.handle ≡ true → (i : ℕ) → early (r.pc i) ≡ true
      pub holds : (i : ℕ) (value : A) → r.pc i ≡ won value → r.first ≡ some (i, value)
      pub stored_first : (i : ℕ) → r.pc i ≡ stored → r.result ≡ r.first
      pub returned : 1 ≤ r.resumed → r.result ≡ r.first
      pub taken : r.handle ≡ false → (i : ℕ) × (value : A) × (r.first ≡ some (i, value))

    module _ {r : Race A} (f : IsFair r) where
      start-IsFair : r.started < n → IsFair (start r)
      start-IsFair low = record {
        one_pack = omega (
          arith,
          f.one_pack,
          total-update winning n r.pc r.started running low,
          ap winning (f.in_order r.started (omega arith)),
        );
        in_order = λ i h. ground (arith, f.in_order i);
        nobody = λ e i. ground (arith, f.nobody e i);
        holds = λ i value e. ground (arith, f.holds i value);
        stored_first = λ i e. ground (arith, f.stored_first i);
        returned = f.returned;
        taken = f.taken;
      }

      store-IsFair : (i : ℕ) {value : A} → i < n → r.pc i ≡ won value → IsFair (store r i value)
      store-IsFair i {value} low e = record {
        one_pack =
            omega (arith, f.one_pack, total-update winning n r.pc i stored low, ap winning e);
        in_order = λ j h. ground (arith, f.in_order j);
        nobody = λ z j.
            absurd
              (omega (arith, f.one_pack, ap one_if z, le-total winning n r.pc i low, ap winning e));
        holds = λ j v q. ground (arith, f.holds j v);
        stored_first = λ j q. sym (f.holds i value e);
        returned = λ h. sym (f.holds i value e);
        taken = f.taken;
      }

      unpause-IsFair : (i : ℕ) → i < n → r.pc i ≡ stored → IsFair (unpause r i)
      unpause-IsFair i low e = record {
        one_pack = omega (arith, f.one_pack, total-update winning n r.pc i over low, ap winning e);
        in_order = λ j h. ground (arith, f.in_order j);
        nobody = λ z j.
            absurd
              (omega (arith, f.one_pack, ap one_if z, le-total winning n r.pc i low, ap winning e));
        holds = λ j v q. ground (arith, f.holds j v);
        stored_first = λ j q. ground (arith, f.stored_first j);
        returned = λ h. f.stored_first i e;
        taken = f.taken;
      }

      exchange-IsFair : (i : ℕ) (value : A) → i < n → r.pc i ≡ running → IsFair (exchange r i value)
      exchange-IsFair i value low e = elim (Bool-cases r.handle) [
        | inl z ↦ rw z (record {
          one_pack = omega (
            arith,
            f.one_pack,
            ap one_if z,
            total-update winning n r.pc i (won value) low,
            ap winning e,
          );
          in_order = λ j h. ground (arith, f.in_order j);
          nobody = λ q j. cc;
          holds = λ j v q. ground (arith, f.nobody z j);
          stored_first = λ j q. ground (arith, f.nobody z j);
          returned = λ h. absurd (omega (arith, f.one_pack, ap one_if z));
          taken = λ q. (i, value, refl);
        })
        | inr z ↦ rw z (record {
          one_pack = omega (
            arith,
            f.one_pack,
            ap one_if z,
            total-update winning n r.pc i over low,
            ap winning e,
          );
          in_order = λ j h. ground (arith, f.in_order j);
          nobody = λ q j. cc;
          holds = λ j v q. ground (arith, f.holds j v);
          stored_first = λ j q. ground (arith, f.stored_first j);
          returned = f.returned;
          taken = λ q. f.taken z;
        })
      ]

    Step-IsFair : {r t : Race A} → IsFair r → Step n r t → IsFair t
    Step-IsFair f (starts low) = start-IsFair f low
    Step-IsFair f (exchanges i value low e) = exchange-IsFair f i value low e
    Step-IsFair f (stores i low e) = store-IsFair f i low e
    Step-IsFair f (unpauses i low e) = unpause-IsFair f i low e

    Reach-IsFair : {r : Race A} → Reach n r → IsFair r
    Reach-IsFair begun = record {
      one_pack = omega (arith, total-zero winning n (λ i. fresh) (λ i. refl));
      in_order = λ i h. refl;
      nobody = λ e i. refl;
      holds = λ i value e. cc;
      stored_first = λ i e. cc;
      returned = λ h. absurd (omega arith);
      taken = λ e. cc;
    }
    Reach-IsFair (later r s) = Step-IsFair (Reach-IsFair r) s

    -- In every interleaving of the `n` futures the awaiting coroutine is unpaused at most once, and once
    -- it is, the result holds the number and the value of the future whose exchange came first.
    pub first_returns :
        {r : Race A}
        → Reach n r
        → (r.resumed ≤ 1)
          × (1 ≤ r.resumed
              → (i : ℕ) × (value : A) × (r.first ≡ some (i, value)) × (r.result ≡ some (i, value)))
    first_returns {r} h =
        let f = Reach-IsFair h in
        (
          omega (arith, f.one_pack),
          λ one.
              let (i, value, e) = f.taken (one_if-zero r.handle (omega (arith, f.one_pack, one))) in
              (i, value, e, f.returned one ∙ e),
        )

    -- When all of them are over, and there was one, the coroutine has been unpaused.
    pub returns_in_the_end :
        {r : Race A} → Reach n r → 1 ≤ n → ((i : ℕ) → i < n → r.pc i ≡ over) → r.resumed ≡ 1
    returns_in_the_end {r} h some_future all_over =
        let f = Reach-IsFair h in
        elim (Bool-cases (total winning n r.pc == 0)) [
          | inl z ↦ elim (Bool-cases r.handle) [
            | inl q ↦ absurd (false≢true (sym (ap early (all_over 0 some_future)) ∙ f.nobody q 0))
            | inr q ↦ omega (arith, f.one_pack, ap one_if q, ==→≡ (total winning n r.pc) 0 z)
          ]
          | inr z ↦
              let (i, low, one) =
                total-positive winning n r.pc (omega (arith, ==→≢ (total winning n r.pc) 0 z)) in
              absurd (omega (arith, one, ap winning (all_over i low)))
        ]
