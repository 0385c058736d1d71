-- ===== src/Tcp/Tests.antt =====
-- An acceptor whose first attempt fails as its port is in use, and connections that fail.
use zab.Prelude.{
  ◌+◌, ◌-◌, ◌^◌, ◌≡◌, ◌==◌, ◌&&◌, true, [], ◌∷◌, refl, arith, count, some, if◌then◌else◌,
}
use zab.Network.{Background, is_valid, neg32, set_descriptor}
use zab.Network.Accounts.{owns}
use zab.Tcp.{
  Answer, Attempt, inet, make_socket, request, fill_address, begin_listen, bind_address,
  make_address, set_options, listen, listens, tcp_connect,
}
use zab.Tcp.Listen.{start, Listens, listen-Listens}
use zab.Tcp.Connect.{tcp_connect_lem}

abbrev fine : Answer
fine = record { result = 0; errno = 0 }

-- -1 with EADDRINUSE
abbrev in_use : Answer
in_use = record { result = 2 ^ 32 - 1; errno = 98 }

abbrev attempt : Answer → Answer → Attempt
attempt on_socket on_bind = record {
  family = inet;
  port = 8080;
  backlog = 10;
  on_socket = on_socket;
  on_reuse = fine;
  on_bind = on_bind;
  on_listen = fine;
}

abbrev background : Background
background = record { closing = []; cancelling = [] }

abbrev first : Attempt
first = attempt (record { result = 7; errno = 0 }) in_use

abbrev second : Attempt
second = attempt (record { result = 9; errno = 0 }) fine

first_fails : (listen (start background) first).0.op.last_error ≡ 98
unfolding listen set_options make_address bind_address begin_listen make_socket request fill_address
first_fails = refl

tries_again : (listen (listens (start background) (first ∷ [])) second).1 ≡ true
unfolding listens listen set_options make_address bind_address begin_listen make_socket request
    fill_address set_descriptor
tries_again = refl

listen-Listens_example :
    Listens background second (listen (listens (start background) (first ∷ [])) second).0
listen-Listens_example = listen-Listens background (first ∷ []) second tries_again

-- No socket is to be had: -1 with EMFILE.
abbrev too_many : Answer
too_many = record { result = 2 ^ 32 - 1; errno = 24 }

tcp_connect_lem_example :
    let out = tcp_connect too_many 0 background in
    (owns 7 (some out.0.net_op) + count 7 out.1.closing
      ≡ count 7 background.closing + count 7 (too_many.result ∷ []))
    × (out.0.net_op.last_error ≡ (if is_valid too_many.result then neg32 0 else 0))
    × (is_valid out.0.net_op.sd ≡ (is_valid too_many.result && 0 == 0))
tcp_connect_lem_example = tcp_connect_lem 7 0 too_many background (omega arith) (omega arith)
