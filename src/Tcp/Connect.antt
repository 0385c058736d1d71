-- ===== src/Tcp/Connect.antt =====
-- What becomes of the socket and of the errors of `tcp_connect`.
use zab.Prelude.{
  ℕ, ◌+◌, ◌^◌, ◌<◌, ◌≡◌, ◌==◌, ◌&&◌, [], ◌∷◌, some, if◌then◌else◌, arith, count, count-append,
}
use zab.Network.{
  Background, is_valid, neg32, set_descriptor, background_close, background_cancel, reset, move,
}
use zab.Network.Accounts.{owns}
use zab.Tcp.{Answer, connect_begin, connect_resume, tcp_connect}

-- A descriptor that socket(2) gave belongs to the stream that `tcp_connect` gives, or is left to be
-- closed. If there was one, the error of the stream is that of the operation. If there was none and
-- socket(2) set errno, the stream has no descriptor either, and its error is 0.
pub tcp_connect_lem :
    (d result : ℕ) (answer : Answer) (b : Background)
    → d < 2 ^ 31
    → 0 < answer.errno
    → (let out = tcp_connect answer result b in
        (owns d (some out.0.net_op) + count d out.1.closing
          ≡ count d b.closing + count d (answer.result ∷ []))
        × (out.0.net_op.last_error ≡ (if is_valid answer.result then neg32 result else 0))
        × (is_valid out.0.net_op.sd ≡ (is_valid answer.result && result == 0)))
unfolding tcp_connect connect_begin connect_resume set_descriptor background_close background_cancel
    reset move
tcp_connect_lem d result answer b small set =
    ground (arith, count-append d b.closing (answer.result ∷ []))
