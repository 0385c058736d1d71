-- ===== src/Tcp/Listen.antt =====
-- The sockets that `listen` makes.
use zab.Prelude.{
  ℕ, ◌==◌, ◌≡◌, ◌||◌, refl, sym, Bool, true, false, List, [], ◌∷◌, ◌++◌, append_assoc, ap, ◌∙◌, ◌⊎◌,
  inl, inr, subst, Bool-cases, arith,
}
use zab.Network.{Background, empty, no_descriptor, is_valid, set_descriptor}
use zab.Tcp.{
  Acceptor, SystemCall, reuse_addr, bind, listen_on, Answer, Attempt, called, and_then, make_socket,
  request, fill_address, htons, set_options, make_address, bind_address, begin_listen, listen,
  listens,
}

abbrev pub start : Background → Acceptor
start b = record { op = empty; background = b; made = []; calls = [] }

-- The sockets of an acceptor: it made none, or one, which it has; it has left none to be closed.
pub record HasOne (b : Background) (a : Acceptor) : Type 0 where
  same : a.background ≡ b
  one :
      ((a.made ≡ []) × (a.op.sd ≡ no_descriptor))
      ⊎ ((a.made ≡ a.op.sd ∷ []) × (is_valid a.op.sd ≡ true))

-- What follows the making of the socket leaves it alone.
record Keeps (a a' : Acceptor) : Type 0 where
  background : a'.background ≡ a.background
  made : a'.made ≡ a.made
  sd : a'.op.sd ≡ a.op.sd

Keeps-trans : (a a' a'' : Acceptor) → Keeps a a' → Keeps a' a'' → Keeps a a''
Keeps-trans a a' a'' k l = record {
  background = l.background ∙ k.background;
  made = l.made ∙ k.made;
  sd = l.sd ∙ k.sd;
}

request-Keeps : (a : Acceptor) (c : SystemCall) (answer : Answer) → Keeps a (request a c answer).0
unfolding request
request-Keeps a c answer = elim (Bool-cases (answer.result == 0)) [
  | inl z ↦ record { background = rw z refl; made = rw z refl; sd = rw z refl }
  | inr z ↦ record { background = rw z refl; made = rw z refl; sd = rw z refl }
]

fill_address-Keeps : (a : Acceptor) (family : ℕ) → Keeps a (fill_address a family).0
unfolding fill_address
fill_address-Keeps a family = elim (Bool-cases (family == 2 || family == 10)) [
  | inl z ↦ record { background = rw z refl; made = rw z refl; sd = rw z refl }
  | inr z ↦ record { background = rw z refl; made = rw z refl; sd = rw z refl }
]

and_then-Keeps :
    (a : Acceptor) (r : Acceptor × Bool) (next : Acceptor → Acceptor × Bool)
    → Keeps a r.0
    → ((a' : Acceptor) → Keeps a' (next a').0)
    → Keeps a (and_then r next).0
and_then-Keeps a (a', false) next k l = k
and_then-Keeps a (a', true) next k l = Keeps-trans a a' (next a').0 k (l a')

listen-Keeps :
    (a : Acceptor) (t : Attempt) → Keeps (make_socket a t.family t.on_socket).0 (listen a t).0
unfolding listen set_options make_address bind_address begin_listen
listen-Keeps a t =
    let m = make_socket a t.family t.on_socket in
    and_then-Keeps m.0 m (set_options t) (record { background = refl; made = refl; sd = refl })
      options
  where
    begins : (a4 : Acceptor) → Keeps a4 (begin_listen t a4).0
    begins a4 = request-Keeps a4 (listen_on a4.op.sd t.backlog) t.on_listen

    binds : (a3 : Acceptor) → Keeps a3 (bind_address t a3).0
    binds a3 =
        let c = bind a3.op.sd t.family (htons t.port) in
        and_then-Keeps a3 (request a3 c t.on_bind) (begin_listen t) (request-Keeps a3 c t.on_bind)
          begins

    makes : (a2 : Acceptor) → Keeps a2 (make_address t a2).0
    makes a2 =
        and_then-Keeps a2 (fill_address a2 t.family) (bind_address t)
          (fill_address-Keeps a2 t.family) binds

    options : (a1 : Acceptor) → Keeps a1 (set_options t a1).0
    options a1 =
        let c = reuse_addr a1.op.sd in
        and_then-Keeps a1 (request a1 c t.on_reuse) (make_address t) (request-Keeps a1 c t.on_reuse)
          makes

module _ (b : Background) where
  make_socket-HasOne :
      (a : Acceptor) (family : ℕ) (answer : Answer)
      → HasOne b a
      → HasOne b (make_socket a family answer).0
  unfolding make_socket set_descriptor
  make_socket-HasOne a family answer h = elim (Bool-cases (is_valid a.op.sd)) [
    | inl v ↦ rw v h
    | inr v ↦ elim (Bool-cases (is_valid answer.result)) [
      | inl w ↦ elim h.one [
        | inl (none_made, e) ↦
            rw (v, w) record { same = h.same; one = inr (ap (λ m. answer.result ∷ m) none_made, w) }
        | inr (m, valid) ↦ cc
      ]
      | inr w ↦ rw (v, w) record { same = h.same; one = h.one }
    ]
  ]

  HasOne-Keeps : (a a' : Acceptor) → Keeps a a' → HasOne b a → HasOne b a'
  HasOne-Keeps a a' k h = record {
    same = k.background ∙ h.same;
    one = elim h.one [
      | inl (m, e) ↦ inl (k.made ∙ m, k.sd ∙ e)
      | inr (m, v) ↦ inr (k.made ∙ m ∙ ap (λ d. d ∷ []) (sym k.sd), ap is_valid k.sd ∙ v)
    ];
  }

  listens-HasOne :
      (a : Acceptor) (attempts : List Attempt) → HasOne b a → HasOne b (listens a attempts)
  unfolding listens
  listens-HasOne a [] h = h
  listens-HasOne a (t ∷ attempts) h = listens-HasOne (listen a t).0 attempts (
      HasOne-Keeps (make_socket a t.family t.on_socket).0 (listen a t).0 (listen-Keeps a t)
        (make_socket-HasOne a t.family t.on_socket h))

-- What a part that gives true has done.
and_then-true :
    (r : Acceptor × Bool) (next : Acceptor → Acceptor × Bool)
    → (and_then r next).1 ≡ true
    → (r.1 ≡ true) × (and_then r next ≡ next r.0)
and_then-true (a, false) next e = cc
and_then-true (a, true) next e = (refl, refl)

request-true :
    (a : Acceptor) (c : SystemCall) (answer : Answer)
    → (request a c answer).1 ≡ true
    → (request a c answer).0 ≡ called a c
unfolding request
request-true a c answer e = ground (arith, e)

fill_address-true :
    (a : Acceptor) (family : ℕ) → (fill_address a family).1 ≡ true → (fill_address a family).0 ≡ a
unfolding fill_address
fill_address-true a family e = ground (arith, e)

make_socket-true :
    (a : Acceptor) (family : ℕ) (answer : Answer)
    → (make_socket a family answer).1 ≡ true
    → is_valid (make_socket a family answer).0.op.sd ≡ true
unfolding make_socket set_descriptor
make_socket-true a family answer e = ground (arith, e)

-- What `set_options` and the rest have done to the object when they give true.
set_options-true :
    (t : Attempt) (a : Acceptor)
    → (set_options t a).1 ≡ true
    → (set_options t a).0
      ≡ called
          (called (called a (reuse_addr a.op.sd)) (bind a.op.sd t.family (htons t.port)))
          (listen_on a.op.sd t.backlog)
unfolding set_options make_address bind_address begin_listen
set_options-true t a e =
    let c1 = reuse_addr a.op.sd in
    let r1 = request a c1 t.on_reuse in
    let (ok1, e1) = and_then-true r1 (make_address t) e in
    let a1 = called a c1 in
    let d1 = e1 ∙ ap (make_address t) (request-true a c1 t.on_reuse ok1) in
    let r2 = fill_address a1 t.family in
    let (ok2, e2) = and_then-true r2 (bind_address t) (ap (λ r. r.1) (sym d1) ∙ e) in
    let d2 = e2 ∙ ap (bind_address t) (fill_address-true a1 t.family ok2) in
    let c3 = bind a.op.sd t.family (htons t.port) in
    let r3 = request a1 c3 t.on_bind in
    let (ok3, e3) = and_then-true r3 (begin_listen t) (ap (λ r. r.1) (sym d2 ∙ sym d1) ∙ e) in
    let a3 = called a1 c3 in
    let d3 = e3 ∙ ap (begin_listen t) (request-true a1 c3 t.on_bind ok3) in
    let c4 = listen_on a.op.sd t.backlog in
    ap (λ r. r.0) (d1 ∙ d2 ∙ d3)
    ∙ request-true a3 c4 t.on_listen (ap (λ r. r.1) (sym d3 ∙ sym d2 ∙ sym d1) ∙ e)

three_calls :
    (before : List SystemCall) (x y z : SystemCall)
    → ((before ++ (x ∷ [])) ++ (y ∷ [])) ++ (z ∷ []) ≡ before ++ (x ∷ y ∷ z ∷ [])
three_calls before x y z =
    append_assoc (before ++ (x ∷ [])) (y ∷ []) (z ∷ []) ∙ append_assoc before (x ∷ []) (y ∷ z ∷ [])

HasOne-made :
    (b : Background) (a : Acceptor) → HasOne b a → is_valid a.op.sd ≡ true → a.made ≡ a.op.sd ∷ []
HasOne-made b a h v = elim h.one [ inl (m, e) ↦ absurd (ground (arith, v, e)) | inr (m, w) ↦ m ]

-- An acceptor that listens as an attempt asks for, with the only socket that was made for it.
pub record Listens (b : Background) (t : Attempt) (a : Acceptor) : Type 0 where
  pub same : a.background ≡ b
  pub made : a.made ≡ a.op.sd ∷ []
  pub valid : is_valid a.op.sd ≡ true
  pub before : List SystemCall
  pub last :
      a.calls
      ≡ before
        ++ (reuse_addr a.op.sd
            ∷ bind a.op.sd t.family (htons t.port)
            ∷ listen_on a.op.sd t.backlog
            ∷ [])

-- A new acceptor is asked to listen any number of times. When a call gives true, the acceptor has the
-- only socket that was made for it, and none was left to be closed; and the last system calls are, on
-- this socket, setsockopt, bind with the family and the port of the call, and listen.
pub listen-Listens :
    (b : Background) (attempts : List Attempt) (t : Attempt)
    → (listen (listens (start b) attempts) t).1 ≡ true
    → Listens b t (listen (listens (start b) attempts) t).0
unfolding listen
listen-Listens b attempts t e =
    let a = listens (start b) attempts in
    let m = make_socket a t.family t.on_socket in
    let (ok, e1) = and_then-true m (set_options t) e in
    let valid = make_socket-true a t.family t.on_socket ok in
    let h =
      make_socket-HasOne b a t.family t.on_socket
        (listens-HasOne b (start b) attempts (record { same = refl; one = inl (refl, refl) })) in
    let end = ap (λ r. r.0) e1 ∙ set_options-true t m.0 (ap (λ r. r.1) (sym e1) ∙ e) in
    subst (Listens b t) (sym end) (record {
      same = h.same;
      made = HasOne-made b m.0 h valid;
      valid = valid;
      before = m.0.calls;
      last =
          three_calls m.0.calls (reuse_addr m.0.op.sd) (bind m.0.op.sd t.family (htons t.port))
            (listen_on m.0.op.sd t.backlog);
    })
