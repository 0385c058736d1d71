-- ===== src/Uring.antt =====
-- The io_uring operations of an event loop: `do_op` and the operations of src/event_loop.cpp, their
-- awaitables in includes/zab/event_loop.hpp, and a batch of completions in `run`. liburing is a
-- parameter. An `io_event` is named by its address, and an `int` is a 32-bit pattern.
pub mod Operations
pub mod Awaitables
pub mod Completion
mod Tests
use zab.Prelude.{
  ℕ, ◌-◌, ◌^◌, ◌≡◌, ◌==◌, List, [], ◌∷◌, ◌++◌, Option, none, some, update, if◌then◌else◌,
}

-- The calls of `io_uring_prep_…`, with their arguments behind the entry.
pub data Request : Type 0 where
  prep_openat : (dfd path flags mode : ℕ) → Request
  prep_close : (fd : ℕ) → Request
  prep_read prep_write : (fd start size offset : ℕ) → Request
  prep_readv prep_writev : (fd iovecs nr_vecs offset : ℕ) → Request
  prep_read_fixed prep_write_fixed : (fd start size offset buf_index : ℕ) → Request
  prep_recv prep_send : (fd start size flags : ℕ) → Request
  prep_accept : (fd addr addrlen flags : ℕ) → Request
  prep_connect : (fd addr addrlen : ℕ) → Request
  prep_cancel : (user_data flags : ℕ) → Request

-- `io_uring_get_sqe` with the preparation of the entry and `io_uring_sqe_set_data`; `none` is a null
-- entry, of a full submission queue. The entry goes behind those that are in the queue.
pub record IoUring : Type 1 where
  pub Ring : Type 0
  pub enqueue : Ring → Request → (user_data : ℕ) → Option Ring
  pub queue : Ring → List (Request × ℕ)
  pub queue-enqueue :
      (ring ring' : Ring) (r : Request) (d : ℕ)
      → enqueue ring r d ≡ some ring'
      → queue ring' ≡ queue ring ++ ((r, d) ∷ [])

-- `-ENOMEM` as an `int`
abbrev pub enomem : ℕ
enomem = 2 ^ 32 - 12

module _ (os : IoUring) where
  open os use {Ring, enqueue}

  -- `ring_`, the `handle_` and `result_` of every io_event, and the words behind the pointers to a
  -- cancelation token. `executed` are the calls of `execute_event`, each with the `result_` that the
  -- event holds then, which is what its awaitable returns.
  pub record Io : Type 0 where
    pub ring : Ring
    pub handles : ℕ → ℕ
    pub results : ℕ → ℕ
    pub tokens : ℕ → ℕ
    pub executed : List (ℕ × ℕ)

  -- `execute_event(token->handle_)`
  abbrev pub execute_event : Io → (token : ℕ) → Io
  execute_event io token = record io {
    executed = io.executed ++ ((io.handles token, io.results token) ∷ []);
  }

  -- `do_op_impl`
  unfoldable pub do_op : Io → (cancel_token : ℕ) → Request → Io
  do_op io cancel_token request = elim (enqueue io.ring request cancel_token) [
    | none ↦
        execute_event (record io { results = update io.results cancel_token enomem }) cancel_token
    | some ring ↦ record io { ring = ring }
  ]

  -- The first loop over a batch in `run`: the result of each completion, by its user data.
  unfoldable pub pop : Io → List (ℕ × ℕ) → Io
  pop io [] = io
  pop io ((token, res) ∷ completions) =
      pop (record io { results = update io.results token res }) completions

  -- The second loop.
  unfoldable pub resume : Io → List (ℕ × ℕ) → Io
  resume io [] = io
  resume io ((token, res) ∷ completions) = resume (execute_event io token) completions

  unfoldable pub batch : Io → List (ℕ × ℕ) → Io
  batch io completions = resume (pop io completions) completions
