-- ===== src/Barrier/Calls.antt =====
-- What the loop of `resume_frames` resumes and leaves in the handles of the nodes.
use zab.Prelude.{
  ℕ, ◌+◌, ◌≡◌, ◌≢◌, ◌≤◌, ◌==◌, refl, sym, ap, ◌∙◌, true, List, [], ◌∷◌, ◌++◌, append-nil,
  append_assoc, arith, length, update, NotIn, In, Distinct, Bool-cases, if◌then◌else◌, inl, inr,
  ==-self, ≢→==,
}
use zab.Barrier.{Kind, waiter, token, drop, kind, address, flag_mask, resume, count_drop}
use zab.Barrier.Window.{fold}
use zab.Barrier.Trim.{addresses}

-- One node: the coroutine in its handle, unless it is a drop or the handle is null.
abbrev pub call : Kind → (handle thread : ℕ) → List (ℕ × ℕ)
call drop handle thread = []
call waiter handle thread = if handle == 0 then [] else ((handle, thread) ∷ [])
call token handle thread = if handle == 0 then [] else ((handle, thread) ∷ [])

abbrev pub calls : (handles threads : ℕ → ℕ) → List ℕ → List (ℕ × ℕ)
calls handles threads [] = []
calls handles threads (w ∷ ws) =
    call (kind w) (handles (address w)) (threads (address w)) ++ calls handles threads ws

-- The handle of a node after the phase: a token that nobody waits on yet is marked as ready.
abbrev pub handle_after : Kind → ℕ → ℕ
handle_after token handle = if handle == 0 then flag_mask else handle
handle_after waiter handle = handle
handle_after drop handle = handle

abbrev one_drop : Kind → ℕ
one_drop drop = 1
one_drop waiter = 0
one_drop token = 0

abbrev pub drops : List ℕ → ℕ
drops [] = 0
drops (w ∷ ws) = one_drop (kind w) + drops ws

calls-agree :
    (handles h threads : ℕ → ℕ) (a : ℕ) (ws : List ℕ)
    → ((j : ℕ) → a ≢ j → h j ≡ handles j)
    → NotIn a (addresses ws)
    → calls h threads ws ≡ calls handles threads ws
calls-agree handles h threads a [] same n = refl
calls-agree handles h threads a (w ∷ ws) same n =
    rw (same (address w) n.0, calls-agree handles h threads a ws same n.1) refl

-- One node resumed.
record Called (threads : ℕ → ℕ) (k : Kind) (a : ℕ) (handles : ℕ → ℕ) (out : List (ℕ × ℕ))
    : Type 0 where
  h : ℕ → ℕ
  result : (resume threads k a (handles, out)).0 ≡ (h, out ++ call k (handles a) (threads a))
  own : h a ≡ handle_after k (handles a)
  others : (j : ℕ) → a ≢ j → h j ≡ handles j

resume-Called :
    (threads : ℕ → ℕ) (k : Kind) (a : ℕ) (handles : ℕ → ℕ) (out : List (ℕ × ℕ))
    → Called threads k a handles out
resume-Called threads drop a handles out = record {
  h = handles;
  result = rw (append-nil out) refl;
  own = refl;
  others = λ j n. refl;
}
resume-Called threads waiter a handles out = record {
  h = handles;
  result = elim (Bool-cases (handles a == 0)) [
    | inl e ↦ rw (e, append-nil out) refl
    | inr e ↦ rw e refl
  ];
  own = refl;
  others = λ j n. refl;
}
resume-Called threads token a handles out = elim (Bool-cases (handles a == 0)) [
  | inl e ↦ record {
    h = update handles a flag_mask;
    result = rw (e, append-nil out) refl;
    own = rw (==-self a, e) refl;
    others = λ j n. rw (≢→== a j n);
  }
  | inr e ↦ record { h = handles; result = rw e refl; own = rw e refl; others = λ j n. refl }
]

-- The loop over the nodes of a window: all coroutines there are resumed, newest first, each node is
-- left with the handle that `handle_after` says, and every other handle is as it was.
pub record Resumed (threads : ℕ → ℕ) (ws : List ℕ) (handles : ℕ → ℕ) (out : List (ℕ × ℕ))
    : Type 0 where
  pub handles' : ℕ → ℕ
  pub result : fold (resume threads) ws (handles, out) ≡ (handles', out ++ calls handles threads ws)
  pub own : (w : ℕ) → In w ws → handles' (address w) ≡ handle_after (kind w) (handles (address w))
  pub others : (j : ℕ) → NotIn j (addresses ws) → handles' j ≡ handles j

address-apart :
    (w v : ℕ) (ws : List ℕ) → NotIn (address w) (addresses ws) → In v ws → address w ≢ address v
address-apart w v [] n i = absurd i
address-apart w v (x ∷ ws) n (inl e) = λ q. n.0 (q ∙ ap address e)
address-apart w v (x ∷ ws) n (inr i) = address-apart w v ws n.1 i

pub resume-Resumed :
    (threads : ℕ → ℕ) (ws : List ℕ) (handles : ℕ → ℕ) (out : List (ℕ × ℕ))
    → Distinct (addresses ws)
    → Resumed threads ws handles out
unfolding fold
resume-Resumed threads [] handles out d = record {
  handles' = handles;
  result = rw (append-nil out) refl;
  own = λ w i. absurd i;
  others = λ j n. refl;
}
resume-Resumed threads (w ∷ ws) handles out d =
    let s : Called threads (kind w) (address w) handles out =
      resume-Called threads (kind w) (address w) handles out in
    let now : List (ℕ × ℕ) = call (kind w) (handles (address w)) (threads (address w)) in
    let r : Resumed threads ws s.h (out ++ now) = resume-Resumed threads ws s.h (out ++ now) d.1 in
    record {
      handles' = r.handles';
      result =
          ap (fold (resume threads) ws) s.result
          ∙ r.result
          ∙ ap (λ l. (r.handles', l))
              (append_assoc out now (calls s.h threads ws)
                ∙ ap (λ l. out ++ (now ++ l))
                    (calls-agree handles s.h threads (address w) ws s.others d.0));
      own = λ v i. elim i [
        | inl e ↦
            ap (λ x. r.handles' (address x)) e
            ∙ r.others (address w) d.0
            ∙ s.own
            ∙ ap (λ x. handle_after (kind x) (handles (address x))) (sym e)
        | inr i' ↦
            r.own v i'
            ∙ ap (handle_after (kind v)) (s.others (address v) (address-apart w v ws d.0 i'))
      ];
      others = λ j n. r.others j n.1 ∙ s.others j (λ e. n.0 (sym e));
    }

count_drop-one : (k : Kind) (a n : ℕ) → (count_drop k a n).0 ≡ one_drop k + n
count_drop-one drop a n = omega arith
count_drop-one waiter a n = omega arith
count_drop-one token a n = omega arith

pub count_drop-goes : (k : Kind) (a n : ℕ) → (count_drop k a n).1 ≡ true
count_drop-goes drop a n = refl
count_drop-goes waiter a n = refl
count_drop-goes token a n = refl

pub resume-goes :
    (threads : ℕ → ℕ) (k : Kind) (a : ℕ) (s : (ℕ → ℕ) × List (ℕ × ℕ))
    → (resume threads k a s).1 ≡ true
resume-goes threads drop a s = refl
resume-goes threads waiter a s = refl
resume-goes threads token a s = refl

pub fold-drops : (ws : List ℕ) (n : ℕ) → fold count_drop ws n ≡ drops ws + n
unfolding fold
fold-drops [] n = omega arith
fold-drops (w ∷ ws) n =
    rw (count_drop-one (kind w) (address w) n) (fold-drops ws (one_drop (kind w) + n) ∙ omega arith)

pub drops-le_length : (ws : List ℕ) → drops ws ≤ length ws
drops-le_length [] = omega arith
drops-le_length (w ∷ ws) = omega (arith, drops-le_length ws, one_drop-le (kind w))
  where
    one_drop-le : (k : Kind) → one_drop k ≤ 1
    one_drop-le drop = omega arith
    one_drop-le waiter = omega arith
    one_drop-le token = omega arith
