-- ===== src/Engine/Dispatch.antt =====
-- What `thread_resume` does to the event loops.
use zab.Prelude.{
  ℕ, zero, suc, ◌-◌, ◌^◌, ◌≤◌, ◌<◌, ◌≡◌, ◌==◌, refl, ap, ◌∙◌, List, [], ◌∷◌, Option, none, some,
  if◌then◌else◌, get_elem?, length, arith, Bool-cases, inl, inr, ◌⊎◌, ==→≡, ==→≢, ≢→==,
}
use zab.EventLoop.{Loop, dispatch_user_event}
use zab.Engine.{sizes, put, choose, thread_resume, any_thread, get_any_thread}
use zab.Engine.Threads.{Least, get_any_thread-Least}

get_elem?-sizes :
    (loops : List Loop) (i : ℕ) (l : Loop)
    → get_elem? loops i ≡ some l
    → get_elem? (sizes loops) i ≡ some l.size
get_elem?-sizes (x ∷ loops) zero l e = ap (λ o. elim o [ none ↦ none | some y ↦ some y.size ]) e
get_elem?-sizes (x ∷ loops) (suc i) l e = get_elem?-sizes loops i l e
get_elem?-sizes [] i l e = cc

sizes-get_elem? :
    (loops : List Loop) (i size : ℕ)
    → get_elem? (sizes loops) i ≡ some size
    → (l : Loop) × (get_elem? loops i ≡ some l) × (l.size ≡ size)
sizes-get_elem? [] i size e = cc
sizes-get_elem? (l ∷ loops) zero size e = (l, refl, cc)
sizes-get_elem? (l ∷ loops) (suc i) size e = sizes-get_elem? loops i size e

length-sizes : (loops : List Loop) → length (sizes loops) ≡ length loops
length-sizes [] = refl
length-sizes (l ∷ loops) = ap suc (length-sizes loops)

in_range :
    (loops : List Loop) (i : ℕ) → i < length loops → (l : Loop) × (get_elem? loops i ≡ some l)
in_range [] i h = absurd (omega arith)
in_range (l ∷ loops) zero h = (l, refl)
in_range (l ∷ loops) (suc i) h = in_range loops i (omega arith)

==-suc : (i j : ℕ) → (i == j) ≡ (suc i == suc j)
==-suc i j = ground arith

pub get_elem?-put {ℓ} :
    {A : Type ℓ} (xs : List A) (i j : ℕ) (x m : A)
    → get_elem? xs i ≡ some x
    → get_elem? (put xs i m) j ≡ (if i == j then some m else get_elem? xs j)
get_elem?-put [] i j l m e = cc
get_elem?-put (x ∷ loops) zero zero l m e = refl
get_elem?-put (x ∷ loops) zero (suc j) l m e = rw (≢→== 0 (suc j) (omega arith)) refl
get_elem?-put (x ∷ loops) (suc i) zero l m e = rw (≢→== (suc i) 0 (omega arith)) refl
get_elem?-put (x ∷ loops) (suc i) (suc j) l m e =
    get_elem?-put loops i j l m e ∙ ap (λ b. if b then some m else get_elem? loops j) (==-suc i j)

-- The loops `out` that a resumption of `event` leaves: one loop `l` of those before, at `index`, has
-- dispatched the event, and all others are as they were.
pub record Resumed (loops : List Loop) (event thread : ℕ) (out : Option (List Loop)) : Type 0 where
  pub index : ℕ
  pub l : Loop
  pub after : List Loop
  pub result : out ≡ some after
  pub there : get_elem? loops index ≡ some l
  pub wanted : (thread ≡ index) ⊎ ((thread ≡ any_thread) × Least (sizes loops) index)
  pub changed :
      (j : ℕ)
      → get_elem? after j
        ≡ (if index == j then some (dispatch_user_event l event) else get_elem? loops j)

chosen :
    (loops : List Loop) (event thread i : ℕ) (l : Loop)
    → choose loops thread ≡ i
    → get_elem? loops i ≡ some l
    → thread_resume loops event thread ≡ some (put loops i (dispatch_user_event l event))
unfolding thread_resume
chosen loops event thread i l c e =
    rw (thread_resume, c, e) (ap (λ k. some (put loops k (dispatch_user_event l event))) c)

-- On an engine with between one and 2^16 - 2 event loops, each of fewer than 2^64 - 1 events,
-- `thread_resume` with the id of a loop or for any thread dispatches the event to exactly one loop: the
-- one asked for, or, for any thread, one than which no loop has fewer events.
pub thread_resume-Resumed :
    (loops : List Loop) (event thread : ℕ)
    → 0 < length loops
    → length loops ≤ any_thread
    → ((j : ℕ) (l : Loop) → get_elem? loops j ≡ some l → l.size < 2 ^ 64 - 1)
    → (thread ≡ any_thread) ⊎ (thread < length loops)
    → Resumed loops event thread (thread_resume loops event thread)
thread_resume-Resumed loops event thread some_loop few small asked =
    elim (Bool-cases (thread == any_thread)) [
      | inl a ↦
          let least : Least (sizes loops) (get_any_thread (sizes loops)) =
            get_any_thread-Least (sizes loops) (omega (arith, length-sizes loops))
              (omega (arith, length-sizes loops))
              (λ j size e.
                let (l, at, is) = sizes-get_elem? loops j size e in
                omega (arith, small j l at, is)) in
          let (l, at, is) =
            sizes-get_elem? loops (get_any_thread (sizes loops)) least.size least.there in
          record {
            index = get_any_thread (sizes loops);
            l = l;
            after = put loops (get_any_thread (sizes loops)) (dispatch_user_event l event);
            result = chosen loops event thread (get_any_thread (sizes loops)) l (rw a refl) at;
            there = at;
            wanted = inr (==→≡ thread any_thread a, least);
            changed = λ j.
                get_elem?-put loops (get_any_thread (sizes loops)) j l (dispatch_user_event l event)
                  at;
          }
      | inr n ↦
          let (l, at) =
            in_range loops thread
              (elim asked [ inl e ↦ absurd (==→≢ thread any_thread n e) | inr h ↦ h ]) in
          record {
            index = thread;
            l = l;
            after = put loops thread (dispatch_user_event l event);
            result = chosen loops event thread thread l (rw n refl) at;
            there = at;
            wanted = inl refl;
            changed = λ j. get_elem?-put loops thread j l (dispatch_user_event l event) at;
          }
    ]
