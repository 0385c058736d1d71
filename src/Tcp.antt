-- ===== src/Tcp.antt =====
-- includes/zab/tcp_networking.hpp and src/tcp_networking.cpp, over Network and Stream. What the system
-- calls and io_uring answer is an argument; an `int` is a 32-bit pattern.
pub mod Listen
pub mod Connect
mod Tests
use zab.Prelude.{
  ℕ, ◌+◌, ◌*◌, ◌/◌, ◌%◌, ◌==◌, ◌||◌, not, Bool, true, false, List, [], ◌∷◌, ◌++◌, Option, none,
  some, if◌then◌else◌,
}
use zab.Network.{
  NetworkOperation, Background, empty, owner, no_descriptor, is_valid, neg32, set_descriptor, reset,
  move,
}
use zab.Stream.{TcpStream}

-- AF_INET, AF_INET6, EINVAL, and SOCK_STREAM and SOCK_CLOEXEC, whose bits are distinct.
abbrev pub inet : ℕ
inet = 2

abbrev pub inet6 : ℕ
inet6 = 10

abbrev pub invalid_argument : ℕ
invalid_argument = 22

abbrev pub sock_stream : ℕ
sock_stream = 1

abbrev pub sock_cloexec : ℕ
sock_cloexec = 524288

-- `htons`, on a machine that stores the low byte first.
abbrev pub htons : ℕ → ℕ
htons port = port % 256 * 256 + port / 256

-- The system calls. The address to bind to is any address of the family.
pub data SystemCall : Type 0 where
  socket : (family kind : ℕ) → SystemCall
  reuse_addr : (fd : ℕ) → SystemCall
  bind : (fd family port : ℕ) → SystemCall
  listen_on : (fd backlog : ℕ) → SystemCall
  accept4 : (fd address len flags : ℕ) → SystemCall
  connect_to : (fd address size : ℕ) → SystemCall

pub record Answer : Type 0 where
  pub result : ℕ
  pub errno : ℕ

-- `tcp_acceptor`, with the descriptors that socket(2) made for it, and the calls so far.
pub record Acceptor : Type 0 where
  pub op : NetworkOperation
  pub background : Background
  pub made : List ℕ
  pub calls : List SystemCall

-- `set_error(error); return false`
abbrev pub fail : Acceptor → ℕ → Acceptor × Bool
fail a error = (record a { op = record a.op { last_error = error } }, false)

-- What follows a part of `listen` that may return.
abbrev pub and_then : Acceptor × Bool → (Acceptor → Acceptor × Bool) → Acceptor × Bool
and_then (a, false) next = (a, false)
and_then (a, true) next = next a

abbrev pub called : Acceptor → SystemCall → Acceptor
called a c = record a { calls = a.calls ++ (c ∷ []) }

unfoldable pub make_socket : Acceptor → (family : ℕ) → Answer → Acceptor × Bool
make_socket a family answer =
    let asked = called a (socket family (sock_stream + sock_cloexec)) in
    let (op, background) = set_descriptor a.op answer.result a.background in
    if is_valid a.op.sd
    then (a, true)
    else if is_valid answer.result
    then (record asked { op = op; background = background; made = answer.result ∷ a.made }, true)
    else fail asked answer.errno

-- A call that gives 0 or fails.
unfoldable pub request : Acceptor → SystemCall → Answer → Acceptor × Bool
request a c answer =
    if answer.result == 0 then (called a c, true) else fail (called a c) answer.errno

unfoldable pub fill_address : Acceptor → (family : ℕ) → Acceptor × Bool
fill_address a family =
    if family == inet || family == inet6 then (a, true) else fail a invalid_argument

-- The arguments of a call of `listen`, and what the system calls answer.
pub record Attempt : Type 0 where
  pub family : ℕ
  pub port : ℕ
  pub backlog : ℕ
  pub on_socket : Answer
  pub on_reuse : Answer
  pub on_bind : Answer
  pub on_listen : Answer

-- The parts of `listen`, each with those that follow it.
unfoldable pub begin_listen : Attempt → Acceptor → Acceptor × Bool
begin_listen t a = request a (listen_on a.op.sd t.backlog) t.on_listen

unfoldable pub bind_address : Attempt → Acceptor → Acceptor × Bool
bind_address t a =
    and_then (request a (bind a.op.sd t.family (htons t.port)) t.on_bind) (begin_listen t)

unfoldable pub make_address : Attempt → Acceptor → Acceptor × Bool
make_address t a = and_then (fill_address a t.family) (bind_address t)

unfoldable pub set_options : Attempt → Acceptor → Acceptor × Bool
set_options t a = and_then (request a (reuse_addr a.op.sd) t.on_reuse) (make_address t)

unfoldable pub listen : Acceptor → Attempt → Acceptor × Bool
listen a t = and_then (make_socket a t.family t.on_socket) (set_options t)

-- Calls of `listen`, one after the other, whatever they return.
unfoldable pub listens : Acceptor → List Attempt → Acceptor
listens a [] = a
listens a (t ∷ attempts) = listens (listen a t).0 attempts

-- `accept`, which first sets the pointer `_address` to null: its suspension with the call that it
-- submits, and its resumption.
abbrev pub accept_suspend :
    NetworkOperation → (token address len flags : ℕ) → NetworkOperation × SystemCall
accept_suspend o token address len flags =
    (record o { cancel_token = token }, accept4 o.sd 0 len flags)

abbrev pub stream_of : ℕ → TcpStream
stream_of sd = record { net_op = owner sd; write_cancel = 0 }

abbrev pub accept_resume : NetworkOperation → (result : ℕ) → NetworkOperation × Option TcpStream
accept_resume o result =
    if is_valid result
    then (record o { cancel_token = 0 }, some (stream_of result))
    else (record o { cancel_token = 0; last_error = neg32 result }, none)

-- `tcp_connect` up to its awaitable.
unfoldable pub connect_begin : Answer → Background → NetworkOperation × Background
connect_begin answer b =
    if is_valid answer.result
    then set_descriptor empty answer.result b
    else (record empty { last_error = answer.errno }, b)

-- The awaitable: whether it is ready at once, the call that it submits, and its resumption.
abbrev pub connect_ready : NetworkOperation → Bool
connect_ready o = not (o.last_error == 0)

abbrev pub connect_suspend : NetworkOperation → (address size : ℕ) → SystemCall
connect_suspend o address size = connect_to o.sd address size

unfoldable pub connect_resume : NetworkOperation → (result : ℕ) → NetworkOperation × TcpStream
connect_resume o result =
    if result == 0 then (record o { cancel_token = 0; sd = no_descriptor }, stream_of o.sd) else (
      record o { cancel_token = 0 },
      record {
        net_op = record (owner no_descriptor) { last_error = neg32 result };
        write_cancel = 0;
      },
    )

-- All of `tcp_connect` up to the end of the awaitable, where `result` comes from the operation if one is
-- submitted; the io_event has the result 0 before that.
unfoldable pub tcp_connect : Answer → (result : ℕ) → Background → TcpStream × Background
tcp_connect answer result b =
    let (o, b') = connect_begin answer b in
    let captured = (move o).0 in
    let (o', stream) = connect_resume captured (if connect_ready captured then 0 else result) in
    (stream, (reset o' b').1)
