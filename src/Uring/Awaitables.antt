-- ===== src/Uring/Awaitables.antt =====
-- The awaitables of includes/zab/event_loop.hpp: what each does when the coroutine `handle` suspends on
-- it, with `ret` the address of its own io_event. `cancel_token` is a pointer that may be null.
use zab.Prelude.{ℕ, ◌==◌, update, if◌then◌else◌}
use zab.Uring.{IoUring, Io}
use zab.Uring.Operations
use zab.Uring.Operations.{Span, CancelResult, cancel_code}

-- Something that a coroutine awaits.
pub data Await : Type 0 where
  open_at : (dfd path flags mode : ℕ) → Await
  close : (fd : ℕ) → Await
  read : (fd : ℕ) → Span → (offset : ℕ) → Await
  read_v : (fd iovecs nr_vecs offset : ℕ) → Await
  fixed_read : (fd : ℕ) → Span → (offset buf_index : ℕ) → Await
  write : (fd : ℕ) → Span → (offset : ℕ) → Await
  write_v : (fd iovecs nr_vecs offset : ℕ) → Await
  fixed_write : (fd : ℕ) → Span → (offset buf_index : ℕ) → Await
  recv : (sockfd : ℕ) → Span → (flags : ℕ) → Await
  send : (sockfd : ℕ) → Span → (flags : ℕ) → Await
  accept : (sockfd addr addrlen flags : ℕ) → Await
  connect : (sockfd addr addrlen : ℕ) → Await

module _ (os : IoUring) where
  -- `ret.handle_ = _handle; if (_cancel_token) { *_cancel_token = &ret; }`
  abbrev pub prepare : Io os → (ret handle cancel_token : ℕ) → Io os
  prepare io ret handle cancel_token = record io {
    handles = update io.handles ret handle;
    tokens = if cancel_token == 0 then io.tokens else update io.tokens cancel_token ret;
  }

  unfoldable pub submit : Io os → (ret : ℕ) → Await → Io os
  submit io ret (open_at dfd path flags mode) = Operations.open_at os io ret dfd path flags mode
  submit io ret (close fd) = Operations.close os io ret fd
  submit io ret (read fd buffer offset) = Operations.read os io ret fd buffer offset
  submit io ret (read_v fd iovecs nr_vecs offset) =
      Operations.read_v os io ret fd iovecs nr_vecs offset
  submit io ret (fixed_read fd buffer offset buf_index) =
      Operations.fixed_read os io ret fd buffer offset buf_index
  submit io ret (write fd buffer offset) = Operations.write os io ret fd buffer offset
  submit io ret (write_v fd iovecs nr_vecs offset) =
      Operations.write_v os io ret fd iovecs nr_vecs offset
  submit io ret (fixed_write fd buffer offset buf_index) =
      Operations.fixed_write os io ret fd buffer offset buf_index
  submit io ret (recv sockfd buffer flags) = Operations.recv os io ret sockfd buffer flags
  submit io ret (send sockfd buffer flags) = Operations.send os io ret sockfd buffer flags
  submit io ret (accept sockfd addr addrlen flags) =
      Operations.accept os io ret sockfd addr addrlen flags
  submit io ret (connect sockfd addr addrlen) = Operations.connect os io ret sockfd addr addrlen

  abbrev pub suspend : Io os → (ret handle cancel_token : ℕ) → Await → Io os
  suspend io ret handle cancel_token what = submit (prepare io ret handle cancel_token) ret what

  -- `cancel_event(_key)`, and what it returns.
  abbrev pub suspend_cancel : Io os → (ret handle key : ℕ) → Io os
  suspend_cancel io ret handle key =
      Operations.cancel_event os (record io { handles = update io.handles ret handle }) ret key

  abbrev pub cancel_result : Io os → (ret : ℕ) → CancelResult
  cancel_result io ret = cancel_code (io.results ret)
