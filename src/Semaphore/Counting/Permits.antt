-- ===== src/Semaphore/Counting/Permits.antt =====
-- What the counting semaphore grants in any interleaving.
use zab.Prelude.{
  ℕ, zero, suc, ◌+◌, ◌-◌, ◌≤◌, ◌<◌, ◌≡◌, ◌==◌, inl, inr, refl, sym, ◌∙◌, true, false, arith, ap,
  Bool-cases, total, total-update, total-zero,
}
use zab.Semaphore.Counting.{
  ℤ, pos, negsuc, plus_one, positive, negative, Pc, idle, looping, waiting, Control, found,
  resuming, off, transferring, missed, spinning, subtracting, System, add_active, finish, Move,
  try_load, try_wins, try_again, try_fails, load, wins, again, counts_down, reads_word, pushes,
  retries, releases, looked, searches, Turn, look, add_found, add_missed, resumes, subtracts, Step,
  pick, turn, Reach, begun, later,
}
use zab.Semaphore.Counting.Moves.{stopped, Held, transfer-Taken, Reach-Held}
use zab.Semaphore.Counting.Moves.{looked-keeps}
use zab.Semaphore.Counting.Balance.{
  waits-awaiting, above, below, above-plus_one, awaiting, ahead, owed, Balanced, held-awaiting,
  local, acquire-Balanced, count_down-Balanced,
}

looked-spinning : (k : Control) (a : ℕ) → searches k ≡ true → looked k a ≡ spinning → k ≡ spinning
looked-spinning spinning a e q = refl
looked-spinning transferring a e q = elim (Bool-cases (a == 0)) [ inl z ↦ cc | inr z ↦ cc ]
looked-spinning off a e q = cc
looked-spinning (found h) a e q = cc
looked-spinning missed a e q = cc
looked-spinning (resuming h) a e q = cc
looked-spinning subtracting a e q = cc

negative-plus_one : (z : ℤ) → negative z ≡ true → positive (plus_one z) ≡ false
negative-plus_one (pos n) e = cc
negative-plus_one (negsuc zero) e = refl
negative-plus_one (negsuc (suc n)) e = refl

awaiting-le : (p : Pc) → awaiting p ≤ 1
awaiting-le p = ground arith

ahead-le : (k : Control) → ahead k ≤ 1
ahead-le k = ground arith

-- While `control` is off nothing is added or owed.
stopped-ahead : (k : Control) → stopped k ≡ true → (ahead k ≡ 0) × (owed k ≡ 0)
stopped-ahead k e = ground arith

module _ (n start : ℕ) {s : System} (l : Held s) (b : Balanced n start s) where
  Move-Balanced : (c : ℕ) {t : System} → c < n → Move c s t → Balanced n start t
  Move-Balanced c low (try_load e) = local n start l b c _ low (rw e refl) (λ o. refl)
  Move-Balanced c low (try_wins e p a) = acquire-Balanced n start l b c low (rw e refl) (rw a p)
  Move-Balanced c low (try_again e p) = local n start l b c _ low (rw e refl) (λ o. refl)
  Move-Balanced c low (try_fails e p) = local n start l b c _ low (rw e refl) (λ o. refl)
  Move-Balanced c low (load e) = local n start l b c _ low (rw e refl) (λ o. refl)
  Move-Balanced c low (wins e p a) = acquire-Balanced n start l b c low (rw e refl) (rw a p)
  Move-Balanced c low (again e p) = local n start l b c _ low (rw e refl) (λ o. refl)
  Move-Balanced c low (counts_down e p) = count_down-Balanced n start l b c low (rw e refl)
  Move-Balanced c low (reads_word e) = local n start l b c _ low (rw e refl) (λ o. refl)
  Move-Balanced c low (pushes {previous} e w) =
      let d = local n start l b c waiting low (rw e refl) (λ o. absurd (omega arith)) in
      record {
        slack = d.slack;
        balance = d.balance;
        account = d.account;
        enough = d.enough;
        none_free = d.none_free;
        outside = d.outside;
      }
  Move-Balanced c low (retries {previous} e) =
      let d = local n start l b c (looping s.sem.word) low (rw e refl) (λ o. refl) in
      record {
        slack = d.slack;
        balance = d.balance;
        account = d.account;
        enough = d.enough;
        none_free = d.none_free;
        outside = d.outside;
      }
  Move-Balanced c low (releases amount e p) = elim (Bool-cases (s.sem.release_count == 0)) [
    | inl z ↦
        let (none_ahead, none_owed) = stopped-ahead s.control (sym l.runs ∙ z) in
        rw z (record {
          slack = b.slack;
          balance = b.balance;
          account = omega (arith, b.account, none_ahead);
          enough = omega arith;
          none_free = λ q. cc;
          outside = b.outside;
        })
    | inr z ↦ rw z (record {
      slack = b.slack;
      balance = b.balance;
      account = omega (arith, b.account);
      enough = b.enough;
      none_free = b.none_free;
      outside = b.outside;
    })
  ]

  -- `control` adds a permit.
  added :
      (k : Control)
      → ahead s.control ≡ 0
      → ahead k ≡ 1
      → owed k ≤ 1
      → (k ≡ spinning → positive (plus_one s.sem.active) ≡ false)
      → Balanced n start (add_active s k)
  added k before after most spins = record {
    slack = suc b.slack;
    balance = omega (arith, b.balance, above-plus_one s.sem.active);
    account = omega (arith, b.account, before, after);
    enough = omega (arith, most);
    none_free = spins;
    outside = b.outside;
  }

  -- `control` takes a release off, and stops or goes on.
  finished :
      (k : Control)
      → s.control ≡ subtracting
      → ahead k ≡ 0
      → owed k ≡ 0
      → (k ≡ spinning → positive s.sem.active ≡ false)
      → Balanced n start (record (finish s) { control = k })
  finished k e none_ahead none_owed spins =
      let some_left : 1 ≤ s.sem.release_count = ground (arith, l.runs ∙ ap stopped e) in
      record {
        slack = b.slack;
        balance = b.balance;
        account = omega (arith, b.account, some_left, ap ahead e, none_ahead);
        enough = omega (arith, none_owed);
        none_free = spins;
        outside = b.outside;
      }

  Turn-Balanced : {t : System} → Turn s t → Balanced n start t
  Turn-Balanced (look fuel {h} e r) =
      let t = transfer-Taken l fuel r in
      record {
        slack = b.slack;
        balance = rw t.active b.balance;
        account =
            rw (t.release_count, looked-keeps ahead refl (λ a. refl) (λ a. refl) s.control h e)
              b.account;
        enough = rw (looked-keeps owed refl (λ a. refl) (λ a. refl) s.control h e) b.enough;
        none_free = λ q. rw t.active (b.none_free (looked-spinning s.control h e q));
        outside = b.outside;
      }
  Turn-Balanced (add_found e) = added _ (ap ahead e) refl (omega arith) (λ q. cc)
  Turn-Balanced (add_missed e) = elim (Bool-cases (negative s.sem.active)) [
    | inl z ↦
        rw z
          (added spinning (ap ahead e) refl (omega arith) (λ q. negative-plus_one s.sem.active z))
    | inr z ↦ rw z (added subtracting (ap ahead e) refl (omega arith) (λ q. cc))
  ]
  Turn-Balanced (resumes {h} e) =
      let (low, one, w) = held-awaiting n start h l b e in
      record {
        slack = b.slack - 1;
        balance = omega (
          arith,
          b.balance,
          b.enough,
          ap owed e,
          total-update awaiting n s.pc h idle low,
          waits-awaiting (s.pc h),
          w,
          awaiting-le (s.pc h),
        );
        account = omega (arith, b.account, b.enough, ap ahead e, ap owed e);
        enough = omega arith;
        none_free = λ q. cc;
        outside = λ j o. ground (arith, b.outside j o);
      }
  Turn-Balanced (subtracts e) = elim (Bool-cases (s.sem.release_count == 1)) [
    | inl z ↦ rw z (finished off e refl refl (λ q. cc))
    | inr z ↦ rw z (finished transferring e refl refl (λ q. cc))
  ]

module _ (n start : ℕ) where
  Step-Balanced : {s t : System} → Held s → Balanced n start s → Step n s t → Balanced n start t
  Step-Balanced l b (pick c high low m) = Move-Balanced n start l b c low m
  Step-Balanced l b (turn u) = Turn-Balanced n start l b u

  pub Reach-Balanced : {s : System} → Reach n start s → Balanced n start s
  Reach-Balanced begun = record {
    slack = start;
    balance = omega (arith, total-zero awaiting n (λ _. idle) (λ i. refl));
    account = omega arith;
    enough = omega arith;
    none_free = λ q. cc;
    outside = λ c h. refl;
  }
  Reach-Balanced (later r st) = Step-Balanced (Reach-Held n start r) (Reach-Balanced r) st

  -- In every interleaving of coroutines with addresses below `n`, no more permits are granted than
  -- there were at the start and have been released.
  pub granted_within : {s : System} → Reach n start s → s.granted ≤ start + s.released
  granted_within {s} r =
      let b = Reach-Balanced r in
      let l = Reach-Held n start r in
      elim (Bool-cases (stopped s.control)) [
        | inl z ↦ omega (arith, b.account, stopped-ahead s.control z)
        | inr z ↦
            let left : 1 ≤ s.sem.release_count = ground (arith, l.runs ∙ z) in
            omega (arith, b.account, left, ahead-le s.control)
      ]

  -- Whenever `control` is not running, the permits granted, the count and the coroutines that await
  -- add up to the permits at the start and those released, where the count may be negative.
  pub permits_kept :
      {s : System}
      → Reach n start s
      → s.control ≡ off
      → s.granted + (above s.sem.active + total awaiting n s.pc)
        ≡ start + (s.released + below s.sem.active)
  permits_kept {s} r e =
      let b = Reach-Balanced r in
      let l = Reach-Held n start r in
      let left : s.sem.release_count ≡ 0 = ground (arith, l.runs ∙ ap stopped e) in
      omega (arith, b.account, b.balance, left, ap ahead e)
