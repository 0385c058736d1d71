-- ===== src/Uring/Operations.antt =====
-- The operations of src/event_loop.cpp that take an io_event.
use zab.Prelude.{ℕ, ◌-◌, ◌^◌, ◌==◌, if◌then◌else◌}
use zab.Uring.{
  prep_openat, prep_close, prep_read, prep_write, prep_readv, prep_writev, prep_read_fixed,
  prep_write_fixed, prep_recv, prep_send, prep_accept, prep_connect, prep_cancel, IoUring, Io,
  do_op, enomem,
}

-- `std::span<std::byte>`
pub record Span : Type 0 where
  pub start : ℕ
  pub size : ℕ

-- `CancelResult`
pub data CancelResult : Type 0 where
  done not_found tried failed unknown : CancelResult

-- `cancel_code`, on an `int` pattern: ENOENT is 2, EALREADY 114, ENOMEM 12.
abbrev pub cancel_code : ℕ → CancelResult
cancel_code result =
    if result == 0
    then done
    else if result == 2 ^ 32 - 2
    then not_found
    else if result == 2 ^ 32 - 114
    then tried
    else if result == enomem
    then failed
    else unknown

module _ (os : IoUring) where
  abbrev pub open_at : Io os → (token dfd path flags mode : ℕ) → Io os
  open_at io token dfd path flags mode = do_op os io token (prep_openat dfd path flags mode)

  abbrev pub close : Io os → (token fd : ℕ) → Io os
  close io token fd = do_op os io token (prep_close fd)

  abbrev pub read : Io os → (token fd : ℕ) → Span → (offset : ℕ) → Io os
  read io token fd buffer offset = do_op os io token (prep_read fd buffer.start buffer.size offset)

  abbrev pub read_v : Io os → (token fd iovecs nr_vecs offset : ℕ) → Io os
  read_v io token fd iovecs nr_vecs offset = do_op os io token (prep_readv fd iovecs nr_vecs offset)

  abbrev pub fixed_read : Io os → (token fd : ℕ) → Span → (offset buf_index : ℕ) → Io os
  fixed_read io token fd buffer offset buf_index =
      do_op os io token (prep_read_fixed fd buffer.start buffer.size offset buf_index)

  abbrev pub write : Io os → (token fd : ℕ) → Span → (offset : ℕ) → Io os
  write io token fd buffer offset =
      do_op os io token (prep_write fd buffer.start buffer.size offset)

  abbrev pub write_v : Io os → (token fd iovecs nr_vecs offset : ℕ) → Io os
  write_v io token fd iovecs nr_vecs offset =
      do_op os io token (prep_writev fd iovecs nr_vecs offset)

  abbrev pub fixed_write : Io os → (token fd : ℕ) → Span → (offset buf_index : ℕ) → Io os
  fixed_write io token fd buffer offset buf_index =
      do_op os io token (prep_write_fixed fd buffer.start buffer.size offset buf_index)

  abbrev pub recv : Io os → (token sockfd : ℕ) → Span → (flags : ℕ) → Io os
  recv io token sockfd buffer flags =
      do_op os io token (prep_recv sockfd buffer.start buffer.size flags)

  abbrev pub send : Io os → (token sockfd : ℕ) → Span → (flags : ℕ) → Io os
  send io token sockfd buffer flags =
      do_op os io token (prep_send sockfd buffer.start buffer.size flags)

  abbrev pub accept : Io os → (token fd addr addrlen flags : ℕ) → Io os
  accept io token fd addr addrlen flags = do_op os io token (prep_accept fd addr addrlen flags)

  abbrev pub connect : Io os → (token fd addr addrlen : ℕ) → Io os
  connect io token fd addr addrlen = do_op os io token (prep_connect fd addr addrlen)

  -- The same steps as `do_op`, written out in the source.
  abbrev pub cancel_event : Io os → (token key : ℕ) → Io os
  cancel_event io token key = do_op os io token (prep_cancel key 0)
