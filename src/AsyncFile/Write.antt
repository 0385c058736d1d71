-- ===== src/AsyncFile/Write.antt =====
-- What `write_to_file` leaves in the file.
use zab.Prelude.{
  ℕ, suc, ◌+◌, ◌-◌, ◌^◌, ◌≤◌, ◌<◌, ◌≡◌, leb, true, false, none, some, List, [], ◌∷◌, lt→ltb, length,
  take, arith, refl, ◌∙◌, ap, ≢→==, ==-self,
}
use zab.AsyncFile.{
  Disk, IsLawful, overlay, done, overrun, off_set, span_size, amount_of, write_some, write_loop,
  write_to_file,
}

pub take-all : (xs : List ℕ) → take (length xs) xs ≡ xs
take-all [] = refl
take-all (x ∷ xs) = ap (λ t. x ∷ t) (take-all xs)

pub off_set_small : (n : ℕ) → n < 2 ^ 31 → off_set n ≡ n
off_set_small n h = ground arith

-- Within a buffer of less than 2^31 - 1 bytes a request reaches to its end.
pub span_size_small : (size off : ℕ) → off ≤ size → size < 2 ^ 31 - 1 → span_size size off ≡ size
span_size_small size off h k = ground arith

-- Behind the end it reaches beyond.
pub span_size_behind : (size off : ℕ) → size < off → off < 2 ^ 31 → size < span_size size off
span_size_behind size off h k = ground arith

pub leb-le : (a b : ℕ) → a ≤ b → leb a b ≡ true
leb-le a b h = ground arith

pub leb-gt : (a b : ℕ) → b < a → leb a b ≡ false
leb-gt a b h = ground arith

pub amount_of_small : (n : ℕ) → n < 2 ^ 31 → amount_of n ≡ some n
amount_of_small n h = ground arith

module _ (D : Disk) where
  write_some-within :
      (s : D.State) (bytes : List ℕ) (off : ℕ)
      → off ≤ length bytes
      → length bytes < 2 ^ 31 - 1
      → write_some D s bytes off ≡ some ((D.write s bytes off).0, amount_of (D.write s bytes off).1)
  unfolding write_some
  write_some-within s bytes off h k =
      rw
        (
          span_size_small (length bytes) off h k,
          take-all bytes,
          leb-le (length bytes) (length bytes) (omega arith),
        )
        refl

  write_some-behind :
      (s : D.State) (bytes : List ℕ) (off : ℕ)
      → length bytes < off
      → off < 2 ^ 31
      → write_some D s bytes off ≡ none
  unfolding write_some
  write_some-behind s bytes off h k =
      rw
        (leb-gt (span_size (length bytes) off) (length bytes)
          (span_size_behind (length bytes) off h k))
        refl

  write_loop-done :
      (fuel : ℕ) (s : D.State) (bytes : List ℕ) (current : ℕ)
      → current ≡ length bytes
      → write_loop D (suc fuel) s bytes current ≡ done s current
  unfolding write_loop
  write_loop-done fuel s bytes current e = rw (e, ==-self (length bytes)) refl

  -- A round whose operation takes `n` bytes.
  write_loop-more :
      (fuel : ℕ) (s : D.State) (bytes : List ℕ) (current n next : ℕ)
      → current < length bytes
      → length bytes < 2 ^ 31 - 1
      → (D.write s bytes current).1 ≡ n
      → 0 < n
      → n < 2 ^ 31
      → current + n ≡ next
      → write_loop D (suc fuel) s bytes current
        ≡ write_loop D fuel (D.write s bytes current).0 bytes next
  unfolding write_loop
  write_loop-more fuel s bytes current n next h k e p q sum =
      rw
        (
          ≢→== current (length bytes) (λ x. omega arith),
          off_set_small current (omega arith),
          write_some-within s bytes current (omega arith) k,
          e,
          amount_of_small n q,
          lt→ltb 0 n p,
        )
        (ap (write_loop D fuel (D.write s bytes current).0 bytes) (omega (arith, sum)))

  write_loop-overrun :
      (fuel : ℕ) (s : D.State) (bytes : List ℕ) (current : ℕ)
      → length bytes < current
      → current < 2 ^ 31
      → write_loop D (suc fuel) s bytes current ≡ overrun
  unfolding write_loop
  write_loop-overrun fuel s bytes current h k =
      rw
        (
          ≢→== current (length bytes) (λ x. omega arith),
          off_set_small current k,
          write_some-behind s bytes current h k,
        )
        refl

  module _ (lawful : IsLawful D) (s : D.State) (bytes : List ℕ) (fuel : ℕ) where
    open lawful use {content, content-write}

    -- An operation that takes all bytes at once.
    pub write_whole :
        1 ≤ length bytes
        → length bytes < 2 ^ 31 - 1
        → (D.write s bytes 0).1 ≡ length bytes
        → (write_to_file D (suc (suc fuel)) s bytes ≡ done (D.write s bytes 0).0 (length bytes))
          × (content (D.write s bytes 0).0 ≡ overlay (content s) 0 bytes)
    write_whole h k e = (
      write_loop-more (suc fuel) s bytes 0 (length bytes) (length bytes) h k e h (omega arith)
            (omega arith)
          ∙ write_loop-done fuel (D.write s bytes 0).0 bytes (length bytes) refl,
      content-write s bytes 0 (omega (arith, e))
          ∙ ap (overlay (content s) 0) (ap (λ n. take n bytes) e ∙ take-all bytes),
    )

    -- If the first operation takes some of the bytes but not all, and the next one all that it is
    -- asked to, which are the bytes from the first one on again, the file has them behind the part
    -- that was written first, and the third request reaches beyond the buffer.
    pub short_write_overruns :
        (part : ℕ)
        → 0 < part
        → part < length bytes
        → length bytes < 2 ^ 30
        → (D.write s bytes 0).1 ≡ part
        → (D.write (D.write s bytes 0).0 bytes part).1 ≡ length bytes
        → (write_to_file D (suc (suc (suc fuel))) s bytes ≡ overrun)
          × (content (D.write (D.write s bytes 0).0 bytes part).0
              ≡ overlay (overlay (content s) 0 (take part bytes)) part bytes)
    short_write_overruns part p q k e e' =
        let s' = (D.write s bytes 0).0 in
        (
          write_loop-more (suc (suc fuel)) s bytes 0 part part (omega arith) (omega arith) e p
                (omega arith) (omega arith)
              ∙ write_loop-more (suc fuel) s' bytes part (length bytes) (part + length bytes) q
                  (omega arith) e' (omega arith) (omega arith) refl
              ∙ write_loop-overrun fuel (D.write s' bytes part).0 bytes (part + length bytes)
                  (omega arith) (omega arith),
          content-write s' bytes part (omega (arith, e'))
              ∙ ap (overlay (content s') part) (ap (λ n. take n bytes) e' ∙ take-all bytes)
              ∙ ap (λ c. overlay c part bytes)
                  (content-write s bytes 0 (omega (arith, e))
                    ∙ ap (λ n. overlay (content s) 0 (take n bytes)) e),
        )
