-- ===== src/Observable/Counting.antt =====
-- Every move of an observable keeps its latches right.
use zab.Prelude.{
  ℕ, suc, ◌+◌, ◌^◌, ◌≤◌, ◌<◌, ◌≡◌, ◌==◌, true, false, none, some, List, [], ◌∷◌, refl, arith, ap,
  ap₂, update, Bool-cases, inl, inr, subst, sym, ◌∙◌, if◌then◌else◌, count, count-append, length,
  total-update, total-new,
}
use zab.Observable.{
  new_slot, Subject, connect, disconnect, abandon, to_next, emit, post, visit, unlock, arrive,
  suspend, take, release,
}
use zab.Observable.Latches.{arrive_for-IsOpen}
use zab.Observable.Owed.{
  on_list, pending, to_count, to_count-false, Below-append, Below-suc, Below-erase, length-erase,
  length-add, Visits, visiting_suc, append-ne, suspend_on-results, suspend_on-finds, IsCounted,
}

module _ {s : Subject} (c : IsCounted s) where
  pub connect-IsCounted : length s.observers + 2 < 2 ^ 63 → IsCounted (connect s)
  connect-IsCounted h = record {
    counts = λ e. omega (arith, c.counts e, total-new (on_list e) s.made s.slots new_slot);
    open_latch = c.open_latch;
    unused = c.unused;
    few = omega (arith, h, length-add s.made s.observers);
    known =
        Below-append (suc s.made) s.made s.observers (Below-suc s.made s.observers c.known)
          (omega arith);
    visiting = visiting_suc s.made s.emitted s.emitting c.visiting;
    before = c.before;
    finds = λ o. ground (arith, c.finds o);
  }

  pub disconnect-IsCounted : (o : ℕ) → o < s.made → s.leaving ≡ [] → IsCounted (disconnect s o)
  disconnect-IsCounted o low q = record {
    counts = λ e. omega (
      arith,
      c.counts e,
      total-update (on_list e) s.made s.slots o new_slot low,
      ap (count e) (to_count-false (s.slots o).results),
      ap (λ l. count e (to_count l s.counted)) q,
    );
    open_latch = c.open_latch;
    unused = c.unused;
    few = omega (arith, c.few, length-erase o s.observers);
    known = Below-erase s.made o s.observers c.known;
    visiting = c.visiting;
    before = c.before;
    finds = λ j. ground (arith, c.finds j);
  }

  pub abandon-IsCounted :
      (e : ℕ) (rest : List ℕ) → s.leaving ≡ e ∷ rest → s.counted ≡ false → IsCounted (abandon s e)
  abandon-IsCounted e rest q f =
      let owes : 1 ≤ (s.latch e).count =
        ground (arith, c.counts e, ap₂ (λ l b. count e (to_count l b)) q f) in
      let gone = arrive_for-IsOpen s.begun s.latch e c.open_latch owes in
      record {
        counts = λ i. ground (
          arith,
          c.counts i,
          (gone i).1,
          ap₂ (λ l b. count i (to_count l b)) q f,
          ap (λ l. count i (to_count l true)) q,
        );
        open_latch = λ i. (gone i).0;
        unused = λ i h. (omega (arith, (gone i).1, (c.unused i h).0), (c.unused i h).1);
        few = c.few;
        known = c.known;
        visiting = c.visiting;
        before = c.before;
        finds = c.finds;
      }

  pub to_next-IsCounted :
      (e : ℕ) (rest : List ℕ) → s.leaving ≡ e ∷ rest → s.counted ≡ true → IsCounted (to_next s rest)
  to_next-IsCounted e rest q f = record {
    counts = λ i. omega (
      arith,
      c.counts i,
      ap₂ (λ l b. count i (to_count l b)) q f,
      ap (count i) (to_count-false rest),
    );
    open_latch = c.open_latch;
    unused = c.unused;
    few = c.few;
    known = c.known;
    visiting = c.visiting;
    before = c.before;
    finds = c.finds;
  }

  -- A count down by one who owes it.
  pub visit-IsCounted :
      (e o : ℕ) (rest : List ℕ) → s.emitting ≡ some (e, o ∷ rest) → IsCounted (visit s e o rest)
  visit-IsCounted e o rest q =
      let (low, members) = subst (Visits s.made s.emitted) q c.visiting in
      record {
        counts = λ i. ground (
          arith,
          c.counts i,
          total-update (on_list i) s.made s.slots o (post (s.slots o) e) members.0,
          count-append i (s.slots o).results (e ∷ []),
          ap (λ x. pending x i) q,
        );
        open_latch = c.open_latch;
        unused = c.unused;
        few = c.few;
        known = c.known;
        visiting = (low, members.1);
        before = λ i p. c.before i (ground (arith, p, ap (λ x. pending x i) q));
        finds = λ j t. (elim (Bool-cases (o == j)) [
          | inl z ↦ rw z (append-ne (s.slots o).results e)
          | inr z ↦ rw z (
              c.finds j
                (subst (λ b. (if b then post (s.slots o) e else s.slots j).taking ≡ true) z t))
        ]);
      }

  pub unlock-IsCounted : (e : ℕ) → s.emitting ≡ some (e, []) → IsCounted (unlock s e)
  unlock-IsCounted e q = record {
    counts = λ i. ground (arith, c.counts i, c.before i, ap (λ x. pending x i) q);
    open_latch = c.open_latch;
    unused = c.unused;
    few = c.few;
    known = c.known;
    visiting = tt;
    before = λ i p. absurd (omega arith);
    finds = c.finds;
  }

  pub emit-IsCounted : s.emitting ≡ none → IsCounted (emit s)
  emit-IsCounted q = record {
    counts = λ e. ground (arith, c.counts e, c.unused e, ap (λ x. pending x e) q);
    open_latch = λ e. elim (Bool-cases (s.emitted == e)) [
      | inl z ↦
          rw z (record { small = omega (arith, c.few); opened = ground arith; started = λ p. refl })
      | inr z ↦ rw z (c.open_latch e)
    ];
    unused = λ e h. ground (arith, c.unused e);
    few = c.few;
    known = c.known;
    visiting = (omega arith, c.known);
    before = λ e p. ground (arith, c.counts e, c.unused e, p);
    finds = c.finds;
  }

  pub arrive-IsCounted : (e : ℕ) → s.to_arrive e ≡ 1 → IsCounted (arrive s e)
  arrive-IsCounted e q =
      let gone = arrive_for-IsOpen s.begun s.latch e c.open_latch (omega (arith, c.counts e, q)) in
      record {
        counts = λ i. ground (arith, c.counts i, (gone i).1);
        open_latch = λ i. (gone i).0;
        unused = λ i h. (omega (arith, (gone i).1, (c.unused i h).0), (c.unused i h).1);
        few = c.few;
        known = c.known;
        visiting = c.visiting;
        before = λ i p. ground (arith, c.before i p);
        finds = c.finds;
      }

  pub release-IsCounted : (e : ℕ) → 1 ≤ s.guards e → IsCounted (release s e)
  release-IsCounted e q =
      let gone = arrive_for-IsOpen s.begun s.latch e c.open_latch (omega (arith, c.counts e, q)) in
      record {
        counts = λ i. ground (arith, c.counts i, (gone i).1);
        open_latch = λ i. (gone i).0;
        unused = λ i h. (omega (arith, (gone i).1, (c.unused i h).0), (c.unused i h).1);
        few = c.few;
        known = c.known;
        visiting = c.visiting;
        before = c.before;
        finds = c.finds;
      }

  pub take-IsCounted :
      (o e : ℕ) (rest : List ℕ)
      → o < s.made
      → (s.slots o).results ≡ e ∷ rest
      → IsCounted (take s o e rest)
  take-IsCounted o e rest low q = record {
    counts = λ i. ground (
      arith,
      c.counts i,
      ap (count i) q,
      total-update (on_list i) s.made s.slots o
          (record (s.slots o) { results = rest; taking = false }) low,
    );
    open_latch = c.open_latch;
    unused = c.unused;
    few = c.few;
    known = c.known;
    visiting = c.visiting;
    before = c.before;
    finds = λ j. ground (arith, c.finds j);
  }

  pub await-IsCounted :
      (o : ℕ)
      → o < s.made
      → (s.slots o).taking ≡ false
      → IsCounted (record s { slots = update s.slots o (suspend (s.slots o)) })
  await-IsCounted o low q = record {
    counts = λ e. omega (
      arith,
      c.counts e,
      total-update (on_list e) s.made s.slots o (suspend (s.slots o)) low,
      ap (count e) (suspend_on-results (s.slots o).results (s.slots o)),
    );
    open_latch = c.open_latch;
    unused = c.unused;
    few = c.few;
    known = c.known;
    visiting = c.visiting;
    before = c.before;
    finds = λ j t. (elim (Bool-cases (o == j)) [
      | inl z ↦ rw z (λ e.
          suspend_on-finds (s.slots o).results (s.slots o) q
            (subst (λ b. (if b then suspend (s.slots o) else s.slots j).taking ≡ true) z t)
            (sym (suspend_on-results (s.slots o).results (s.slots o)) ∙ e))
      | inr z ↦ rw z (
          c.finds j (subst (λ b. (if b then suspend (s.slots o) else s.slots j).taking ≡ true) z t))
    ]);
  }
