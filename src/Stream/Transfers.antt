-- ===== src/Stream/Transfers.antt =====
-- What `read` and `write` have in common: a loop of operations, each on all that is left.
use zab.Prelude.{
  ℕ, ◌+◌, ◌-◌, ◌^◌, ◌≤◌, ◌<◌, ◌≡◌, ◌==◌, refl, sym, min, true, false, none, some, if◌then◌else◌,
  arith, Bool-cases, ==→≡, ==→≢, subst, inl, inr, ◌⊎◌, add64, ◌∙◌,
}
use zab.Network.{neg32, is_positive}
use zab.Awaitable.{Stateful, start, settle, notify, drive}
use zab.Awaitable.Drive.{IsFine, drive_lem}
use zab.Stream.{
  TcpStream, Request, Transfer, remaining, max_read, notified, minus_one, is_positive64,
}

-- An operation before it is awaited.
abbrev pub new_transfer : TcpStream → (size offset flags token : ℕ) → Transfer
new_transfer s size offset flags token = record {
  stream = s;
  size = size;
  offset = offset;
  flags = flags;
  so_far = 0;
  token = token;
  request = none;
}

-- `min(size - so_far - offset, kMaxRead)` where nothing wraps.
abbrev pub rest : (size so_far offset : ℕ) → ℕ
rest size so_far offset = min (size - so_far - offset) max_read

-- A suspension asks for the rest and leaves the account alone.
pub record Asks (t t' : Transfer) : Type 0 where
  pub fd : ℕ
  pub flags : ℕ
  pub asked :
      t'.request
      ≡ some (record {
        fd = fd;
        start = add64 t.offset t.so_far;
        amount = remaining t max_read;
        flags = flags;
      })
  pub same_size : t'.size ≡ t.size
  pub same_offset : t'.offset ≡ t.offset
  pub same_so_far : t'.so_far ≡ t.so_far

-- The other end of the socket: its states `E`, what it does with a request and the result that it
-- returns, and `Holds e n`, what `e` is when `n` bytes have been transferred. It transfers at most what
-- a request asks for.
pub record Socket (size offset : ℕ) : Type 1 where
  pub E : Type 0
  pub Holds : E → ℕ → Type 0
  pub serve : E → Request → E × ℕ
  pub serve_more :
      (e : E) (r : Request) (n : ℕ)
      → n + offset ≤ size
      → r.start ≡ offset + n
      → Holds e n
      → is_positive (serve e r).1 ≡ true
      → Holds (serve e r).0 (n + (serve e r).1) × ((serve e r).1 ≤ r.amount)
  pub serve_stop :
      (e : E) (r : Request) (n : ℕ)
      → Holds e n
      → is_positive (serve e r).1 ≡ false
      → Holds (serve e r).0 n

module _ {size offset : ℕ} (socket : Socket size offset) where
  open socket use {E, Holds, serve, serve_more, serve_stop}

  -- The socket answers the request that was made last.
  abbrev pub answer : E → Transfer → E × ℕ
  answer e t = elim t.request [ none ↦ (e, 0) | some r ↦ serve e r ]

  -- Where an operation stands.
  pub record Account (e : E) (t : Transfer) : Type 0 where
    pub same_size : t.size ≡ size
    pub same_offset : t.offset ≡ offset
    pub within : t.so_far + offset ≤ size
    pub holds : Holds e t.so_far

  record Asked (e : E) (t : Transfer) : Type 0 where
    account : Account e t
    fd : ℕ
    flags : ℕ
    asked :
        t.request
        ≡ some (record {
          fd = fd;
          start = offset + t.so_far;
          amount = rest size t.so_far offset;
          flags = flags;
        })

  -- The operation is over: all is transferred, or a request for something failed.
  pub record Ended (e : E) (t : Transfer) : Type 0 where
    pub account : Account e t
    pub ended :
        (t.so_far + offset ≡ size)
        ⊎ ((before : E) × (r : Request) × (0 < r.amount)
            × (is_positive (serve before r).1 ≡ false)
            × (t.stream.net_op.last_error ≡ neg32 (serve before r).1))

  module _ (suspend : Transfer → Transfer) (asks : (t : Transfer) → Asks t (suspend t))
      (small : size < 2 ^ 63) where
    abbrev pub transfer : Stateful Transfer
    transfer = record {
      is_ready = λ t. t.so_far == t.size;
      on_suspend = suspend;
      on_notify = notified;
    }

    left : E → Transfer → ℕ
    left e t = size - (t.so_far + offset)

    suspend-Asked : (e : E) (t : Transfer) → Account e t → Asked e (suspend t)
    suspend-Asked e t a =
        let q : Asks t (suspend t) = asks t in
        record {
          account = record {
            same_size = q.same_size ∙ a.same_size;
            same_offset = q.same_offset ∙ a.same_offset;
            within = omega (arith, q.same_so_far, a.within);
            holds = subst (Holds e) (sym q.same_so_far) a.holds;
          };
          fd = q.fd;
          flags = q.flags;
          asked = q.asked ∙ ground (arith, a.same_size, a.same_offset, a.within, q.same_so_far);
        }

    -- A result that is positive.
    notify_more :
        (e : E) (t : Transfer) (result : ℕ)
        → is_positive result ≡ true
        → 0 < result
        → Account e (record t { so_far = t.so_far + result })
        → IsFine Asked Ended left (left e t) e (notify transfer t result)
    unfolding notify settle notified left
    notify_more e t result more pos a =
        let sum : add64 t.so_far result ≡ t.so_far + result = omega (arith, a.within) in
        elim (Bool-cases (t.so_far + result == t.size)) [
          | inl all ↦
              rw (more, sum, all, notify, notified, settle)
                (record {
                  account = a;
                  ended =
                      inl
                        (omega (arith, ==→≡ (t.so_far + result) t.size all, a.same_size, a.within));
                })
          | inr some_left ↦
              rw (more, sum, some_left, notify, notified, settle)
                (
                  suspend-Asked e (record t { so_far = t.so_far + result }) a,
                  omega (
                    arith,
                    a.within,
                    (asks (record t { so_far = t.so_far + result })).same_so_far,
                  ),
                )
        ]

    -- The end of an operation that asked for the rest.
    notify_stop :
        (before e : E) (t : Transfer) (r : Request)
        → r.amount ≡ rest size t.so_far offset
        → is_positive (serve before r).1 ≡ false
        → Account e t
        → IsFine Asked Ended left (left e t) e (notify transfer t (serve before r).1)
    unfolding notify settle notified
    notify_stop before e t r asked stop a =
        rw (stop, notify, notified, settle)
          (record {
            account = record {
              same_size = a.same_size;
              same_offset = a.same_offset;
              within = a.within;
              holds = a.holds;
            };
            ended = elim (Bool-cases (t.so_far + offset == size)) [
              | inl all ↦ inl (==→≡ (t.so_far + offset) size all)
              | inr some_left ↦ inr (
                before,
                r,
                omega (arith, a.within, asked, ==→≢ (t.so_far + offset) size some_left),
                stop,
                refl,
              )
            ];
          })

    step :
        (e : E) (t : Transfer)
        → Asked e t
        → IsFine Asked Ended left (left e t) (answer e t).0 (notify transfer t (answer e t).1)
    unfolding left
    step e t a =
        subst (λ x. IsFine Asked Ended left (left e t) x.0 (notify transfer t x.1)) (sym answered)
          (elim (Bool-cases (is_positive (serve e r).1)) [
            | inl more ↦
                let (holds, most) =
                  serve_more e r t.so_far a.account.within refl a.account.holds more in
                notify_more (serve e r).0 t (serve e r).1 more (positive (serve e r).1 more)
                  (record {
                    same_size = a.account.same_size;
                    same_offset = a.account.same_offset;
                    within = omega (arith, most, a.account.within);
                    holds = holds;
                  })
            | inr stop ↦ notify_stop e (serve e r).0 t r refl stop (record {
              same_size = a.account.same_size;
              same_offset = a.account.same_offset;
              within = a.account.within;
              holds = serve_stop e r t.so_far a.account.holds stop;
            })
          ])
      where
        r : Request
        r = record {
          fd = a.fd;
          start = offset + t.so_far;
          amount = rest size t.so_far offset;
          flags = a.flags;
        }

        answered : answer e t ≡ serve e r
        answered = rw a.asked refl

        positive : (n : ℕ) → is_positive n ≡ true → 0 < n
        positive n h = ground arith

    -- With an operation for each byte, and one more, a transfer is over.
    pub transfer_lem :
        (e : E) (s : TcpStream) (flags token fuel : ℕ)
        → Holds e 0
        → offset ≤ size
        → size - offset < fuel
        → (e' : E) × (t : Transfer) × (drive transfer answer fuel e
              (start transfer (new_transfer s size offset flags token))
            ≡ some (e', t))
          × Ended e' t
    unfolding start left
    transfer_lem e s flags token fuel holds h enough =
        drive_lem Asked Ended left transfer answer step fuel e
          (start transfer (new_transfer s size offset flags token)) begin
      where
        fresh : Account e (new_transfer s size offset flags token)
        fresh = record { same_size = refl; same_offset = refl; within = omega arith; holds = holds }

        begin :
            IsFine Asked Ended left fuel e (start transfer (new_transfer s size offset flags token))
        begin = elim (Bool-cases (0 == size)) [
          | inl none_asked ↦
              rw none_asked
                (record { account = fresh; ended = inl (omega (arith, ==→≡ 0 size none_asked)) })
          | inr some_left ↦ rw some_left (
            suspend-Asked e (new_transfer s size offset flags token) fresh,
            omega (arith, (asks (new_transfer s size offset flags token)).same_so_far),
          )
        ]

-- What `read` and `write` return for an amount.
abbrev pub amount_or_error : ℕ → ℕ
amount_or_error n = if n == 0 then minus_one else n

pub resume_amount :
    (n size : ℕ)
    → n ≤ size
    → size < 2 ^ 63
    → (if is_positive64 n then n else minus_one) ≡ amount_or_error n
resume_amount n size h k = ground arith
