-- ===== src/Stream/Read.antt =====
-- What a whole `read` puts into the buffer.
use zab.Prelude.{
  ℕ, suc, ◌+◌, ◌-◌, ◌^◌, ◌≤◌, ◌<◌, ◌≡◌, refl, ltb, leb, ◌&&◌, true, false, some, Bool-cases, inl,
  inr, leb→le, ap, if◌then◌else◌, arith,
}
use zab.Network.{is_positive}
use zab.Awaitable.{start, drive}
use zab.Stream.{TcpStream, Request, Transfer, read, read_suspend, read_resume}
use zab.Stream.Transfers.{
  Socket, Asks, Ended, answer, new_transfer, transfer_lem, amount_or_error, resume_amount,
}

-- The buffer, how much of the other end's bytes has been received, and how many operations there were.
pub record Receiver : Type 0 where
  pub buffer : ℕ → ℕ
  pub received : ℕ
  pub count : ℕ

-- `source`, from its byte number `from` on, in the place of `amount` bytes of a buffer.
abbrev pub filled : (source buffer : ℕ → ℕ) (from start amount : ℕ) → ℕ → ℕ
filled source buffer from start amount a =
    if leb start a && ltb a (start + amount) then source (from + (a - start)) else buffer a

-- Bytes received behind those that are there.
filled_more :
    (source before : ℕ → ℕ) (here n offset start result a : ℕ)
    → start ≡ offset + n
    → here ≡ filled source before 0 offset n a
    → (if leb start a && ltb a (start + result) then source (n + (a - start)) else here)
      ≡ filled source before 0 offset (n + result) a
filled_more source before here n offset start result a at old = elim (Bool-cases (leb start a)) [
  | inl behind ↦ ground (arith, behind, old, ap source (index behind))
  | inr in_front ↦ ground (arith, in_front, old)
]
  where
    index : leb start a ≡ true → n + (a - start) ≡ 0 + (a - offset)
    index h = omega (arith, leb→le start a h)

-- `source` are the bytes that the other end sends. `delivers n amount` is the result of the operation
-- number `n`, on a request of `amount` bytes: an error, or how many bytes it puts into the buffer, from
-- the start of the request.
module _ (delivers : ℕ → ℕ → ℕ) (source before : ℕ → ℕ) where
  abbrev pub recv : Receiver → Request → Receiver × ℕ
  recv e r =
      let result = delivers e.count r.amount in
      (
        if is_positive result
            then record {
              buffer = filled source e.buffer e.received r.start result;
              received = e.received + result;
              count = suc e.count;
            }
            else record e { count = suc e.count },
        result,
      )

  -- `n` bytes received, in their place behind the offset.
  pub record Received (offset : ℕ) (e : Receiver) (n : ℕ) : Type 0 where
    pub amount : e.received ≡ n
    pub bytes : (a : ℕ) → e.buffer a ≡ filled source before 0 offset n a

  module _ (size offset : ℕ)
      (honest : (n amount : ℕ)
        → is_positive (delivers n amount) ≡ true
        → delivers n amount ≤ amount) where
    pub recv_more :
        (e : Receiver) (r : Request) (n : ℕ)
        → n + offset ≤ size
        → r.start ≡ offset + n
        → Received offset e n
        → is_positive (recv e r).1 ≡ true
        → Received offset (recv e r).0 (n + (recv e r).1) × ((recv e r).1 ≤ r.amount)
    recv_more e r n h at w more = rw more (
      record {
        amount = omega (arith, w.amount);
        bytes = λ a. rw w.amount (
            filled_more source before (e.buffer a) n offset r.start (delivers e.count r.amount) a at
              (w.bytes a));
      },
      honest e.count r.amount more,
    )

    pub recv_stop :
        (e : Receiver) (r : Request) (n : ℕ)
        → Received offset e n
        → is_positive (recv e r).1 ≡ false
        → Received offset (recv e r).0 n
    recv_stop e r n w stop = rw stop (record { amount = w.amount; bytes = w.bytes })

    abbrev pub buffer_socket : Socket size offset
    buffer_socket = record {
      E = Receiver;
      Holds = Received offset;
      serve = recv;
      serve_more = recv_more;
      serve_stop = recv_stop;
    }

    read-Asks : (wait_all : ℕ → ℕ) (t : Transfer) → Asks t (read_suspend wait_all t)
    unfolding read_suspend
    read-Asks wait_all t = record {
      fd = t.stream.net_op.sd;
      flags = wait_all t.flags;
      asked = ground arith;
      same_size = refl;
      same_offset = refl;
      same_so_far = refl;
    }

    -- A `read` into a buffer of fewer than 2^63 bytes, from an offset within it, on a socket that
    -- delivers at most what it is asked to: with one operation for each byte behind the offset, and one
    -- more, it is over. The bytes received are in their order behind the offset, and no other byte of
    -- the buffer has changed; they fill it, or the operation behind them failed and left the stream its
    -- error. It returns how many these are, or -1 if there are none, and nothing is left to cancel.
    pub read_lem :
        (wait_all : ℕ → ℕ) (s : TcpStream) (flags token fuel : ℕ)
        → size < 2 ^ 63
        → offset ≤ size
        → size - offset < fuel
        → (e : Receiver) × (t : Transfer) × (drive
              (read wait_all)
              (answer buffer_socket)
              fuel
              (record { buffer = before; received = 0; count = 0 })
              (start (read wait_all) (new_transfer s size offset flags token))
            ≡ some (e, t))
          × Ended buffer_socket e t
          × ((read_resume t).1 ≡ amount_or_error e.received)
          × ((read_resume t).0.net_op.cancel_token ≡ 0)
    read_lem wait_all s flags token fuel small h enough =
        let none_yet : Received offset (record { buffer = before; received = 0; count = 0 }) 0 =
          record { amount = refl; bytes = λ a. ground arith } in
        let (e, t, over, w) =
          transfer_lem buffer_socket (read_suspend wait_all) (read-Asks wait_all) small
            (record { buffer = before; received = 0; count = 0 }) s flags token fuel none_yet h
            enough in
        (
          e,
          t,
          over,
          w,
          rw w.account.holds.amount
              (resume_amount t.so_far size (omega (arith, w.account.within)) small),
          refl,
        )
