-- ===== src/Stream/Tests.antt =====
-- Concrete transfers on a stream.
use zab.Prelude.{ℕ, ◌≤◌, ◌≡◌, refl, min, true, List, [], ◌∷◌, length, some, arith}
use mathlib.Core.Option
use zab.Network.{owner, is_positive}
use zab.Awaitable.{start, settle, notify, drive}
use zab.Stream.{TcpStream, Transfer, notified, write, write_suspend, write_resume}
use zab.Stream.Transfers.{Ended, answer, new_transfer, amount_or_error}
use zab.Stream.Write.{Peer, wire_socket, write_lem}

abbrev stream : TcpStream
stream = record { net_op = owner 3; write_cancel = 0 }

-- The socket takes two bytes at a time.
abbrev two_at_a_time : ℕ → ℕ → ℕ
two_at_a_time n amount = min amount 2

two_at_a_time-le :
    (n amount : ℕ) → is_positive (two_at_a_time n amount) ≡ true → two_at_a_time n amount ≤ amount
two_at_a_time-le n amount h = omega arith

abbrev five_bytes : List ℕ
five_bytes = 5 ∷ 6 ∷ 7 ∷ 8 ∷ 9 ∷ []

written_bytes :
    Option.map
      (λ (r : Peer × Transfer). r.0.wire)
      (drive write
        (answer (wire_socket two_at_a_time five_bytes 1 two_at_a_time-le))
        5
        (record { wire = []; count = 0 })
        (start write (new_transfer stream 5 1 0 64)))
    ≡ some (6 ∷ 7 ∷ 8 ∷ 9 ∷ [])
unfolding drive start notify settle notified write_suspend
written_bytes = refl

write_example :
    (p : Peer) × (t : Transfer) × (drive write
        (answer (wire_socket two_at_a_time five_bytes 1 two_at_a_time-le))
        5
        (record { wire = []; count = 0 })
        (start write (new_transfer stream (length five_bytes) 1 0 64))
      ≡ some (p, t))
    × Ended (wire_socket two_at_a_time five_bytes 1 two_at_a_time-le) p t
    × ((write_resume t).1 ≡ amount_or_error (length p.wire))
    × ((write_resume t).0.write_cancel ≡ 0)
write_example =
    write_lem two_at_a_time five_bytes 1 two_at_a_time-le stream 0 64 5 (omega arith) (omega arith)
      (omega arith)
