-- ===== src/Stream/Write.antt =====
-- What a whole `write` puts on the wire.
use zab.Prelude.{
  ℕ, suc, ◌+◌, ◌-◌, ◌^◌, ◌≤◌, ◌<◌, ◌≡◌, refl, sym, ap, ◌∙◌, true, false, List, [], ◌++◌, length,
  length-take, length-drop, take, drop, take-add, drop-add, some, if◌then◌else◌, arith,
}
use zab.Network.{is_positive}
use zab.Awaitable.{start, drive}
use zab.Stream.{TcpStream, Request, Transfer, write, write_suspend, write_resume}
use zab.Stream.Transfers.{
  Socket, Asks, Ended, answer, new_transfer, transfer_lem, amount_or_error, resume_amount,
}

-- The other end: the bytes it has taken, and how many operations there were.
pub record Peer : Type 0 where
  pub wire : List ℕ
  pub count : ℕ

-- `accepts n amount` is the result of the operation number `n`, on a request of `amount` bytes: an
-- error, or how many bytes of the buffer, from the start of the request, are taken.
module _ (accepts : ℕ → ℕ → ℕ) (bytes : List ℕ) where
  abbrev pub send : Peer → Request → Peer × ℕ
  send p r =
      let result = accepts p.count r.amount in
      (
        record {
          wire = if is_positive result then p.wire ++ take result (drop r.start bytes) else p.wire;
          count = suc p.count;
        },
        result,
      )

  module _ (offset : ℕ)
      (honest : (n amount : ℕ)
        → is_positive (accepts n amount) ≡ true
        → accepts n amount ≤ amount) where
    pub send_more :
        (p : Peer) (r : Request) (n : ℕ)
        → n + offset ≤ length bytes
        → r.start ≡ offset + n
        → p.wire ≡ take n (drop offset bytes)
        → is_positive (send p r).1 ≡ true
        → ((send p r).0.wire ≡ take (n + (send p r).1) (drop offset bytes))
          × ((send p r).1 ≤ r.amount)
    send_more p r n h at wire more = (
      rw (more, wire, at)
          (ap (λ l. take n (drop offset bytes) ++ take (accepts p.count r.amount) l)
              (sym (drop-add offset n bytes))
            ∙ sym (take-add n (accepts p.count r.amount) (drop offset bytes))),
      honest p.count r.amount more,
    )

    pub send_stop :
        (p : Peer) (r : Request) (n : ℕ)
        → p.wire ≡ take n (drop offset bytes)
        → is_positive (send p r).1 ≡ false
        → (send p r).0.wire ≡ take n (drop offset bytes)
    send_stop p r n wire stop = rw stop wire

    abbrev pub wire_socket : Socket (length bytes) offset
    wire_socket = record {
      E = Peer;
      Holds = λ p n. p.wire ≡ take n (drop offset bytes);
      serve = send;
      serve_more = send_more;
      serve_stop = send_stop;
    }

    write-Asks : (t : Transfer) → Asks t (write_suspend t)
    unfolding write_suspend
    write-Asks t = record {
      fd = t.stream.net_op.sd;
      flags = t.flags;
      asked = refl;
      same_size = refl;
      same_offset = refl;
      same_so_far = refl;
    }

    -- A `write` of fewer than 2^63 `bytes`, from an offset within them, on a socket that takes at most
    -- what it is asked to: with one operation for each byte behind the offset, and one more, it is over.
    -- The wire then has the first bytes behind the offset, in order: all of them, or those before an
    -- operation that failed, whose error is the stream's. It returns how many these are, or -1 if there
    -- are none, and nothing is left to cancel.
    pub write_lem :
        (s : TcpStream) (flags token fuel : ℕ)
        → length bytes < 2 ^ 63
        → offset ≤ length bytes
        → length bytes - offset < fuel
        → (p : Peer) × (t : Transfer) × (drive write
              (answer wire_socket)
              fuel
              (record { wire = []; count = 0 })
              (start write (new_transfer s (length bytes) offset flags token))
            ≡ some (p, t))
          × Ended wire_socket p t
          × ((write_resume t).1 ≡ amount_or_error (length p.wire))
          × ((write_resume t).0.write_cancel ≡ 0)
    write_lem s flags token fuel small h enough =
        let (p, t, over, w) =
          transfer_lem wire_socket write_suspend write-Asks small (record { wire = []; count = 0 })
            s flags token fuel refl h enough in
        let count : length p.wire ≡ t.so_far =
          ap length w.account.holds
          ∙ length-take t.so_far (drop offset bytes)
              (omega (arith, w.account.within, length-drop offset bytes)) in
        (
          p,
          t,
          over,
          w,
          resume_amount t.so_far (length bytes) (omega (arith, w.account.within)) small
              ∙ ap amount_or_error (sym count),
          refl,
        )
