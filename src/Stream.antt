-- ===== src/Stream.antt =====
-- includes/zab/tcp_stream.hpp: reads and writes on a socket. The bytes of a buffer are numbered from
-- its first, and an `int` is a 32-bit pattern.
pub mod Transfers
pub mod Write
pub mod Read
mod Tests
use zab.Prelude.{
  ℕ, ◌+◌, ◌-◌, ◌%◌, ◌^◌, ◌==◌, min, ltb, ◌&&◌, Bool, true, false, not, Option, none, some,
  if◌then◌else◌, add64, sub64,
}
use zab.Network.{NetworkOperation, neg32, is_positive}
use zab.Awaitable.{Stateful, NotifyCtl, resume, ready}

-- `kMaxWrite` and `kMaxRead`
abbrev pub max_write : ℕ
max_write = 65535

abbrev pub max_read : ℕ
max_read = 2 ^ 31 - 3

pub record TcpStream : Type 0 where
  pub net_op : NetworkOperation
  pub write_cancel : ℕ

abbrev pub set_error : TcpStream → ℕ → TcpStream
set_error s error = record s { net_op = record s.net_op { last_error = error } }

abbrev pub set_cancel : TcpStream → ℕ → TcpStream
set_cancel s token = record s { net_op = record s.net_op { cancel_token = token } }

-- A `send` or `recv` on the descriptor: where in the buffer it starts, how much, and the flags.
pub record Request : Type 0 where
  pub fd : ℕ
  pub start : ℕ
  pub amount : ℕ
  pub flags : ℕ

-- What an operation captures: the size of `_data`, `_offset`, `_flags`, `so_far`, and the io_event of
-- the awaitable; with the stream, and the request that was made last.
pub record Transfer : Type 0 where
  pub stream : TcpStream
  pub size : ℕ
  pub offset : ℕ
  pub flags : ℕ
  pub so_far : ℕ
  pub token : ℕ
  pub request : Option Request

-- `_data.size() - so_far - _offset`, a `std::size_t`, up to `most`.
abbrev pub remaining : Transfer → (most : ℕ) → ℕ
remaining t most = min (sub64 (sub64 t.size t.so_far) t.offset) most

-- `write_some` and `read_some`: whether they are ready at once, the request, and the resumption with
-- the result of the operation.
abbrev pub some_ready : Transfer → Bool
some_ready t = t.size == 0

unfoldable pub write_some_suspend : Transfer → Transfer
write_some_suspend t = record t {
  stream = record t.stream { write_cancel = t.token };
  request = some (record {
    fd = t.stream.net_op.sd;
    start = t.offset;
    amount = min (sub64 t.size t.offset) max_write;
    flags = t.flags;
  });
}

unfoldable pub read_some_suspend : Transfer → Transfer
read_some_suspend t = record t {
  stream = set_cancel t.stream t.token;
  request = some (record {
    fd = t.stream.net_op.sd;
    start = t.offset;
    amount = min (sub64 t.size t.offset) max_read;
    flags = t.flags;
  });
}

abbrev some_result : TcpStream → ℕ → TcpStream × ℕ
some_result s result =
    if is_positive result then (s, result) else (set_error s (neg32 result), 2 ^ 32 - 1)

unfoldable pub write_some_resume : TcpStream → (result : ℕ) → TcpStream × ℕ
write_some_resume s result = some_result (record s { write_cancel = 0 }) result

unfoldable pub read_some_resume : TcpStream → (result : ℕ) → TcpStream × ℕ
read_some_resume s result = some_result (set_cancel s 0) result

-- The branch that `read` and `write` take on a result.
unfoldable pub notified : Transfer → ℕ → Transfer × NotifyCtl
notified t result =
    if is_positive result
    then (record t { so_far = add64 t.so_far result }, ready)
    else (record t { stream = set_error t.stream (neg32 result) }, resume)

-- `write`
unfoldable pub write_suspend : Transfer → Transfer
write_suspend t = record t {
  stream = record t.stream { write_cancel = t.token };
  request = some (record {
    fd = t.stream.net_op.sd;
    start = add64 t.offset t.so_far;
    amount = remaining t max_read;
    flags = t.flags;
  });
}

abbrev pub write : Stateful Transfer
write = record {
  is_ready = λ t. t.so_far == t.size;
  on_suspend = write_suspend;
  on_notify = notified;
}

-- `so_far > 0`, of a `long long`
abbrev pub is_positive64 : ℕ → Bool
is_positive64 a = ltb 0 a && ltb a (2 ^ 63)

-- -1 as a `long long`
abbrev pub minus_one : ℕ
minus_one = 2 ^ 64 - 1

-- The resumption: the stream, and the amount or -1.
abbrev pub write_resume : Transfer → TcpStream × ℕ
write_resume t =
    (record t.stream { write_cancel = 0 }, if is_positive64 t.so_far then t.so_far else minus_one)

-- `read`; `MSG_WAITALL` is added to the flags.
unfoldable pub read_suspend : (wait_all : ℕ → ℕ) → Transfer → Transfer
read_suspend wait_all t = record t {
  stream = set_cancel t.stream t.token;
  request = some (record {
    fd = t.stream.net_op.sd;
    start = add64 t.so_far t.offset;
    amount = remaining t max_read;
    flags = wait_all t.flags;
  });
}

abbrev pub read : (wait_all : ℕ → ℕ) → Stateful Transfer
read wait_all = record {
  is_ready = λ t. t.so_far == t.size;
  on_suspend = read_suspend wait_all;
  on_notify = notified;
}

abbrev pub read_resume : Transfer → TcpStream × ℕ
read_resume t = (set_cancel t.stream 0, if is_positive64 t.so_far then t.so_far else minus_one)
