-- ===== src/Semaphore/Counting/Moves.antt =====
-- Every step of the counting semaphore keeps the lists of its waiters, so they are a queue.
use zab.Prelude.{
  Bool, ℕ, ◌+◌, ◌≤◌, ◌≡◌, ◌==◌, if◌then◌else◌, inl, inr, refl, sym, ◌∙◌, true, false, List, [], ◌∷◌,
  ◌++◌, arith, some, ap, subst, Bool-cases,
}
use zab.Semaphore.Counting.{
  ℤ, pos, negsuc, Sem, Pc, idle, linking, looping, Control, found, resuming, off, transferring,
  missed, spinning, subtracting, transfer, System, set_pc, acquire, Move, try_load, try_wins,
  try_again, try_fails, load, wins, again, counts_down, reads_word, pushes, retries, releases,
  looked, searches, Turn, look, add_found, add_missed, resumes, subtracts, Step, pick, turn, init,
  Reach, begun, later, negative,
}
use zab.Semaphore.Counting.Transfer.{Taken, Transferred, heads, transfer-returns, transfer-agree}
use zab.Semaphore.Counting.Linked.{
  held, waits, waits-le, arrivals, Linked, local_move, link_move, control_move, wake_move,
  take_move, push_move,
}

abbrev pub stopped : Control → Bool
stopped off = true
stopped _ = false

-- The lists that the invariant speaks of; `control` runs while there are permits to release.
pub record Held (s : System) : Type 0 where
  pub stack : List ℕ
  pub queue : List ℕ
  pub inv : Linked s.sem s.pc s.control s.pushed s.woken stack queue
  pub runs : (s.sem.release_count == 0) ≡ stopped s.control

-- `transfer` in a state that meets the invariant.
pub transferred : {s : System} (h : Held s) → Transferred s.sem h.stack h.queue
transferred {s} h =
    transfer-returns s.sem h.stack h.queue h.inv.stack_chain h.inv.queue_chain
      (λ c. omega (arith, h.inv.parked c, waits-le (s.pc c)))

pub transfer-Taken :
    {s : System} (held_lists : Held s) (fuel : ℕ) {h : ℕ} {m : Sem}
    → transfer fuel s.sem ≡ some (h, m)
    → Taken s.sem held_lists.stack held_lists.queue h m
transfer-Taken {s} l fuel {h} {m} e =
    let t = transferred l in
    let same : ◌≡◌ {A = ℕ × Sem} (t.head, t.memory) (h, m) =
      transfer-agree t.fuel fuel s.sem t.result e in
    subst (λ (o : ℕ × Sem). Taken s.sem l.stack l.queue o.0 o.1) same t.taken

looked-held :
    (k : Control) (a : ℕ) → searches k ≡ true → (held k ≡ []) × (held (looked k a) ≡ heads a)
looked-held transferring a e =
    (refl, elim (Bool-cases (a == 0)) [ inl z ↦ rw z refl | inr z ↦ rw z refl ])
looked-held spinning a e =
    (refl, elim (Bool-cases (a == 0)) [ inl z ↦ rw z refl | inr z ↦ rw z refl ])
looked-held off a e = cc
looked-held (found h) a e = cc
looked-held missed a e = cc
looked-held (resuming h) a e = cc
looked-held subtracting a e = cc

-- Whatever does not tell `control` before `transfer` from `control` behind it.
pub looked-keeps {ℓ} :
    {A : Type ℓ} (f : Control → A)
    → f missed ≡ f transferring
    → ((a : ℕ) → f (found a) ≡ f transferring)
    → ((a : ℕ) → f (resuming a) ≡ f spinning)
    → (k : Control) (a : ℕ) → searches k ≡ true
    → f (looked k a) ≡ f k
looked-keeps f m g r transferring a e = elim (Bool-cases (a == 0)) [
  | inl z ↦ rw z m
  | inr z ↦ rw z (g a)
]
looked-keeps f m g r spinning a e = elim (Bool-cases (a == 0)) [
  | inl z ↦ rw z refl
  | inr z ↦ rw z (r a)
]
looked-keeps f m g r off a e = cc
looked-keeps f m g r (found h) a e = cc
looked-keeps f m g r missed a e = cc
looked-keeps f m g r (resuming h) a e = cc
looked-keeps f m g r subtracting a e = cc

missed-held : (count : ℤ) → held (if negative count then spinning else subtracting) ≡ []
missed-held (pos n) = refl
missed-held (negsuc n) = refl

missed-stopped : (count : ℤ) → false ≡ stopped (if negative count then spinning else subtracting)
missed-stopped (pos n) = refl
missed-stopped (negsuc n) = refl

stopped-held : (k : Control) → stopped k ≡ true → held k ≡ []
stopped-held off e = refl
stopped-held transferring e = refl
stopped-held (found h) e = cc
stopped-held missed e = refl
stopped-held spinning e = refl
stopped-held (resuming h) e = cc
stopped-held subtracting e = refl

done-held : (n : ℕ) → held (if n == 1 then off else transferring) ≡ []
done-held n = ground arith

module _ {s : System} (l : Held s) where
  -- A move that changes no list and nobody who waits, whatever it does to the counts.
  local : (c : ℕ) (p : Pc) → waits (s.pc c) ≡ 0 → waits p ≡ 0 → Held (set_pc s c p)
  local c p w w' = record {
    stack = l.stack;
    queue = l.queue;
    inv = local_move l.inv c p w w';
    runs = l.runs;
  }

  recount :
      (active : ℤ) (released : ℕ)
      → Linked
          (record s.sem { active = active; release_count = released })
          s.pc
          s.control
          s.pushed
          s.woken
          l.stack
          l.queue
  recount active released = record {
    stack_chain = l.inv.stack_chain;
    queue_chain = l.inv.queue_chain;
    parked = l.inv.parked;
    order = l.inv.order;
  }

  acquire-Held : (c : ℕ) → waits (s.pc c) ≡ 0 → Held (acquire s c)
  acquire-Held c w = record {
    stack = l.stack;
    queue = l.queue;
    inv = local_move (recount _ _) c idle w refl;
    runs = l.runs;
  }

  started :
      (amount : ℕ)
      → 1 ≤ amount
      → (s.sem.release_count + amount == 0)
        ≡ stopped (if s.sem.release_count == 0 then transferring else s.control)
  started amount p = ground (arith, l.runs)

  Move-Held : (c : ℕ) {t : System} → 2 ≤ c → Move c s t → Held t
  Move-Held c high (try_load e) = local c _ (rw e refl) refl
  Move-Held c high (try_wins e p a) = acquire-Held c (rw e refl)
  Move-Held c high (try_again e p) = local c _ (rw e refl) refl
  Move-Held c high (try_fails e p) = local c _ (rw e refl) refl
  Move-Held c high (load e) = local c _ (rw e refl) refl
  Move-Held c high (wins e p a) = acquire-Held c (rw e refl)
  Move-Held c high (again e p) = local c _ (rw e refl) refl
  Move-Held c high (counts_down e p) = record {
    stack = l.stack;
    queue = l.queue;
    inv = local_move (recount _ _) c linking (rw e refl) refl;
    runs = l.runs;
  }
  Move-Held c high (reads_word e) = local c _ (rw e refl) refl
  Move-Held c high (pushes e w) = record {
    stack = c ∷ l.stack;
    queue = l.queue;
    inv = push_move l.inv c high e w;
    runs = l.runs;
  }
  Move-Held c high (retries {previous} e) = record {
    stack = l.stack;
    queue = l.queue;
    inv =
        local_move (link_move l.inv c previous (rw e refl)) c (looping s.sem.word) (rw e refl) refl;
    runs = l.runs;
  }
  Move-Held c high (releases amount e p) = record {
    stack = l.stack;
    queue = l.queue;
    inv = control_move (recount _ _) _ (elim (Bool-cases (s.sem.release_count == 0)) [
      | inl z ↦ rw z (sym (stopped-held s.control (sym l.runs ∙ z)))
      | inr z ↦ rw z refl
    ]);
    runs = started amount p;
  }

  Turn-Held : {t : System} → Turn s t → Held t
  Turn-Held (look fuel {h} e r) =
      let t = transfer-Taken l fuel r in
      let (free, has) = looked-held s.control h e in
      record {
        stack = t.stack';
        queue = t.queue';
        inv = take_move l.inv (looked s.control h) free has t;
        runs =
            ap (λ x. x == 0) t.release_count
            ∙ l.runs
            ∙ sym (looked-keeps stopped refl (λ a. refl) (λ a. refl) s.control h e);
      }
  Turn-Held (add_found e) = record {
    stack = l.stack;
    queue = l.queue;
    inv = control_move (recount _ _) _ (rw e refl);
    runs = l.runs ∙ ap stopped e;
  }
  Turn-Held (add_missed e) = record {
    stack = l.stack;
    queue = l.queue;
    inv = control_move (recount _ _) _ (missed-held s.sem.active ∙ sym (rw e refl));
    runs = l.runs ∙ ap stopped e ∙ missed-stopped s.sem.active;
  }
  Turn-Held (resumes {h} e) = record {
    stack = l.stack;
    queue = l.queue;
    inv = wake_move l.inv h e;
    runs = l.runs ∙ ap stopped e;
  }
  Turn-Held (subtracts e) = record {
    stack = l.stack;
    queue = l.queue;
    inv = control_move (recount _ _) _ (done-held s.sem.release_count ∙ sym (rw e refl));
    runs = ground (arith, l.runs ∙ ap stopped e);
  }

init-Held : (start : ℕ) → Held (init start)
init-Held start = record {
  stack = [];
  queue = [];
  inv = record { stack_chain = refl; queue_chain = refl; parked = λ c. refl; order = refl };
  runs = refl;
}

pub Step-Held : {n : ℕ} {s t : System} → Held s → Step n s t → Held t
Step-Held l (pick c high below m) = Move-Held l c high m
Step-Held l (turn u) = Turn-Held l u

pub Reach-Held : (n start : ℕ) {s : System} → Reach n start s → Held s
Reach-Held n start begun = init-Held start
Reach-Held n start (later r st) = Step-Held (Reach-Held n start r) st

-- In every state that the coroutines reach in any interleaving, the waiters resumed so far are, in
-- order, the first of the waiters that were pushed.
pub resumed_by_arrival :
    (n start : ℕ) {s : System} → Reach n start s → (rest : List ℕ) × (s.pushed ≡ s.woken ++ rest)
resumed_by_arrival n start {s} r =
    let l = Reach-Held n start r in (arrivals s.control l.stack l.queue, l.inv.order)
