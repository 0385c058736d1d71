-- ===== src/Uring/Completion.antt =====
-- What becomes of an awaited operation, and of a batch of completions.
use zab.Prelude.{
  ℕ, ◌≡◌, refl, sym, ap, ◌∙◌, List, [], ◌∷◌, ◌++◌, append-nil, append_assoc, none, update, Distinct,
  NotIn, ◌⊎◌, inl, inr, Option-cases, ==-self, ≢→==,
}
use zab.Uring.{
  Request, prep_openat, prep_close, prep_read, prep_write, prep_readv, prep_writev, prep_read_fixed,
  prep_write_fixed, prep_recv, prep_send, prep_accept, prep_connect, prep_cancel, IoUring, Io,
  do_op, enomem, execute_event, pop, resume, batch,
}
use zab.Uring.Operations.{failed, cancel_code}
use zab.Uring.Awaitables.{
  Await, open_at, close, read, read_v, fixed_read, write, write_v, fixed_write, recv, send, accept,
  connect, prepare, submit, suspend, suspend_cancel, cancel_result,
}

abbrev pub io_events : List (ℕ × ℕ) → List ℕ
io_events [] = []
io_events ((token, res) ∷ completions) = token ∷ io_events completions

-- The coroutines of a batch, each with the result of its own completion.
abbrev pub delivered : (ℕ → ℕ) → List (ℕ × ℕ) → List (ℕ × ℕ)
delivered handles [] = []
delivered handles ((token, res) ∷ completions) =
    (handles token, res) ∷ delivered handles completions

abbrev Holds : (ℕ → ℕ) → List (ℕ × ℕ) → Type 0
Holds results [] = Unit
Holds results ((token, res) ∷ completions) = (results token ≡ res) × Holds results completions

module _ (os : IoUring) where
  open os use {Ring, enqueue, queue, queue-enqueue}

  pop-others :
      (io : Io os) (completions : List (ℕ × ℕ)) (a : ℕ)
      → NotIn a (io_events completions)
      → (pop os io completions).results a ≡ io.results a
  unfolding pop
  pop-others io [] a n = refl
  pop-others io ((token, res) ∷ completions) a n =
      pop-others (record io { results = update io.results token res }) completions a n.1
      ∙ rw (≢→== token a (λ e. n.0 (sym e)))

  pop-Holds :
      (io : Io os) (completions : List (ℕ × ℕ))
      → Distinct (io_events completions)
      → Holds (pop os io completions).results completions
  unfolding pop
  pop-Holds io [] d = tt
  pop-Holds io ((token, res) ∷ completions) d = (
    pop-others (record io { results = update io.results token res }) completions token d.0
        ∙ rw (==-self token) refl,
    pop-Holds (record io { results = update io.results token res }) completions d.1,
  )

  pop_rest :
      (io : Io os) (completions : List (ℕ × ℕ))
      → ((pop os io completions).handles ≡ io.handles)
        × ((pop os io completions).executed ≡ io.executed)
  unfolding pop
  pop_rest io [] = (refl, refl)
  pop_rest io ((token, res) ∷ completions) =
      pop_rest (record io { results = update io.results token res }) completions

  resume_lem :
      (io : Io os) (completions : List (ℕ × ℕ))
      → Holds io.results completions
      → (resume os io completions).executed ≡ io.executed ++ delivered io.handles completions
  unfolding resume
  resume_lem io [] h = sym (append-nil io.executed)
  resume_lem io ((token, res) ∷ completions) h =
      resume_lem (execute_event os io token) completions h.1
      ∙ append_assoc io.executed ((io.handles token, io.results token) ∷ [])
          (delivered io.handles completions)
      ∙ ap (λ r. io.executed ++ ((io.handles token, r) ∷ delivered io.handles completions)) h.0

  -- A batch of completions of different io_events executes the event of each exactly once, in the order
  -- of the batch, and each finds the result of its own completion: all results are stored before the
  -- first coroutine runs.
  pub batch_delivers :
      (io : Io os) (completions : List (ℕ × ℕ))
      → Distinct (io_events completions)
      → (batch os io completions).executed ≡ io.executed ++ delivered io.handles completions
  unfolding batch
  batch_delivers io completions d =
      let rest = pop_rest io completions in
      resume_lem (pop os io completions) completions (pop-Holds io completions d)
      ∙ ap (λ l. l ++ delivered (pop os io completions).handles completions) rest.1
      ∙ ap (λ h. io.executed ++ delivered h completions) rest.0

-- The call of liburing that stands for an awaited operation.
abbrev pub request : Await → Request
request (open_at dfd path flags mode) = prep_openat dfd path flags mode
request (close fd) = prep_close fd
request (read fd buffer offset) = prep_read fd buffer.start buffer.size offset
request (read_v fd iovecs nr_vecs offset) = prep_readv fd iovecs nr_vecs offset
request (fixed_read fd buffer offset buf_index) =
    prep_read_fixed fd buffer.start buffer.size offset buf_index
request (write fd buffer offset) = prep_write fd buffer.start buffer.size offset
request (write_v fd iovecs nr_vecs offset) = prep_writev fd iovecs nr_vecs offset
request (fixed_write fd buffer offset buf_index) =
    prep_write_fixed fd buffer.start buffer.size offset buf_index
request (recv sockfd buffer flags) = prep_recv sockfd buffer.start buffer.size flags
request (send sockfd buffer flags) = prep_send sockfd buffer.start buffer.size flags
request (accept sockfd addr addrlen flags) = prep_accept sockfd addr addrlen flags
request (connect sockfd addr addrlen) = prep_connect sockfd addr addrlen

module _ (os : IoUring) where
  open os use {Ring, enqueue, queue, queue-enqueue}

  submit_lem :
      (io : Io os) (ret : ℕ) (what : Await) → submit os io ret what ≡ do_op os io ret (request what)
  unfolding submit
  submit_lem io ret (open_at dfd path flags mode) = refl
  submit_lem io ret (close fd) = refl
  submit_lem io ret (read fd buffer offset) = refl
  submit_lem io ret (read_v fd iovecs nr_vecs offset) = refl
  submit_lem io ret (fixed_read fd buffer offset buf_index) = refl
  submit_lem io ret (write fd buffer offset) = refl
  submit_lem io ret (write_v fd iovecs nr_vecs offset) = refl
  submit_lem io ret (fixed_write fd buffer offset buf_index) = refl
  submit_lem io ret (recv sockfd buffer flags) = refl
  submit_lem io ret (send sockfd buffer flags) = refl
  submit_lem io ret (accept sockfd addr addrlen flags) = refl
  submit_lem io ret (connect sockfd addr addrlen) = refl

  -- The operation is refused, and the event executed at once with `-ENOMEM`.
  pub record Refused (ring : Ring) (executed : List (ℕ × ℕ)) (r : Request) (ret handle : ℕ)
      (after : Io os) : Type 0 where
    pub full : enqueue ring r ret ≡ none
    pub told : after.executed ≡ executed ++ ((handle, enomem) ∷ [])
    pub result : after.results ret ≡ enomem

  -- The operation is queued behind the others and nothing executed; the event is executed with the
  -- result of whatever completion comes for it.
  pub record Queued (ring : Ring) (executed : List (ℕ × ℕ)) (r : Request) (ret handle : ℕ)
      (after : Io os) : Type 0 where
    pub queued : queue after.ring ≡ queue ring ++ ((r, ret) ∷ [])
    pub silent : after.executed ≡ executed
    pub completes :
        (res : ℕ) → (batch os after ((ret, res) ∷ [])).executed ≡ executed ++ ((handle, res) ∷ [])

  do_op_lem :
      (io : Io os) (r : Request) (ret handle : ℕ)
      → io.handles ret ≡ handle
      → Refused io.ring io.executed r ret handle (do_op os io ret r)
        ⊎ Queued io.ring io.executed r ret handle (do_op os io ret r)
  unfolding do_op
  do_op_lem io r ret handle own = elim (Option-cases (enqueue io.ring r ret)) [
    | inl e ↦ inl (
        rw (e, do_op)
          (record { full = e; told = rw (own, ==-self ret) refl; result = rw (==-self ret) refl }))
    | inr (ring, e) ↦ inr (
        rw (e, do_op)
          (record {
            queued = queue-enqueue io.ring ring r ret e;
            silent = refl;
            completes = λ res.
                batch_delivers os (record io { ring = ring }) ((ret, res) ∷ []) (tt, tt)
                ∙ ap (λ h. io.executed ++ ((h, res) ∷ [])) own;
          }))
  ]

  -- A coroutine that awaits an operation is resumed: if the submission queue is full, at once with
  -- `-ENOMEM`; otherwise the operation is queued, under the coroutine's own io_event, and its
  -- completion resumes the coroutine with the result.
  pub suspend_lem :
      (io : Io os) (ret handle cancel_token : ℕ) (what : Await)
      → (let after = suspend os io ret handle cancel_token what in
          Refused io.ring io.executed (request what) ret handle after
          ⊎ Queued io.ring io.executed (request what) ret handle after)
  suspend_lem io ret handle cancel_token what =
      rw (submit_lem (prepare os io ret handle cancel_token) ret what) (
        do_op_lem (prepare os io ret handle cancel_token) (request what) ret handle
          (rw (==-self ret) refl))

  -- A cancellation is attempted and its awaitable resumed in the same way; without an entry in the
  -- submission queue it returns `kFailed`.
  pub cancel_lem :
      (io : Io os) (ret handle key : ℕ)
      → (let after = suspend_cancel os io ret handle key in
          (Refused io.ring io.executed (prep_cancel key 0) ret handle after
            × (cancel_result os after ret ≡ failed))
          ⊎ Queued io.ring io.executed (prep_cancel key 0) ret handle after)
  cancel_lem io ret handle key =
      elim (do_op_lem (record io { handles = update io.handles ret handle }) (prep_cancel key 0) ret
        handle (rw (==-self ret) refl)) [ inl r ↦ inl (r, ap cancel_code r.result) | inr q ↦ inr q ]
