-- ===== src/AsyncFile/Read.antt =====
-- What `read_file` returns.
use zab.Prelude.{
  ℕ, zero, suc, ◌+◌, ◌-◌, ◌^◌, ◌≤◌, ◌<◌, ◌≡◌, some, List, [], ◌∷◌, length-drop, length-take, length,
  take, drop, arith, refl, sym, ◌∙◌, ap, ≢→==, ==-self, subst,
}
use zab.AsyncFile.{
  Disk, IsLawful, overlay, done, amount_of, read_some, read_loop, read_file, read_amount, zeros,
  write_to_file,
}
use zab.AsyncFile.Write.{
  take-all, off_set_small, span_size_small, leb-le, amount_of_small, write_whole,
}

pub length-zeros : (n : ℕ) → length (zeros n) ≡ n
length-zeros zero = refl
length-zeros (suc n) = omega (arith, length-zeros n)

-- A buffer that is replaced as a whole.
overlay-whole :
    (buffer bytes : List ℕ) → length buffer ≡ length bytes → overlay buffer 0 bytes ≡ bytes
overlay-whole [] [] e = refl
overlay-whole (x ∷ buffer) [] e = absurd (omega arith)
overlay-whole [] (y ∷ bytes) e = refl
overlay-whole (x ∷ buffer) (y ∷ bytes) e =
    ap (λ t. y ∷ t) (overlay-whole buffer bytes (omega arith))

length-overlay :
    (buffer bytes : List ℕ)
    → length bytes ≤ length buffer
    → length (overlay buffer 0 bytes) ≡ length buffer
length-overlay [] [] h = refl
length-overlay (x ∷ buffer) [] h = refl
length-overlay [] (y ∷ bytes) h = absurd (omega arith)
length-overlay (x ∷ buffer) (y ∷ bytes) h = omega (arith, length-overlay buffer bytes (omega arith))

overlay-nil : (bytes : List ℕ) → overlay [] 0 bytes ≡ bytes
overlay-nil [] = refl
overlay-nil (b ∷ bytes) = refl

module _ (D : Disk) where
  read_some-within :
      (s : D.State) (buffer : List ℕ) (off : ℕ)
      → off ≤ length buffer
      → length buffer < 2 ^ 31 - 1
      → read_some D s buffer off
        ≡ some (
          (D.read s (length buffer) off).0,
          overlay buffer 0 (D.read s (length buffer) off).2,
          amount_of (D.read s (length buffer) off).1,
        )
  unfolding read_some
  read_some-within s buffer off h k =
      rw
        (
          span_size_small (length buffer) off h k,
          leb-le (length buffer) (length buffer) (omega arith),
        )
        refl

  read_loop-done :
      (fuel : ℕ) (s : D.State) (buffer : List ℕ) (current : ℕ)
      → current ≡ length buffer
      → read_loop D (suc fuel) s buffer current ≡ done s buffer
  unfolding read_loop
  read_loop-done fuel s buffer current e = rw (e, ==-self (length buffer)) refl

  -- A round whose operation gives `n` bytes.
  read_loop-more :
      (fuel : ℕ) (s : D.State) (buffer : List ℕ) (current n next : ℕ)
      → current < length buffer
      → length buffer < 2 ^ 31 - 1
      → (D.read s (length buffer) current).1 ≡ n
      → n < 2 ^ 31
      → current + n ≡ next
      → read_loop D (suc fuel) s buffer current
        ≡ read_loop D fuel
            (D.read s (length buffer) current).0
            (overlay buffer 0 (D.read s (length buffer) current).2)
            next
  unfolding read_loop
  read_loop-more fuel s buffer current n next h k e q sum =
      rw
        (
          ≢→== current (length buffer) (λ x. omega arith),
          off_set_small current (omega arith),
          read_some-within s buffer current (omega arith) k,
          e,
          amount_of_small n q,
        )
        (ap
          (read_loop D fuel (D.read s (length buffer) current).0
            (overlay buffer 0 (D.read s (length buffer) current).2))
          (omega (arith, sum)))

  -- The same for a buffer of `size` bytes, with the buffer that it leaves.
  pub read_loop-next :
      (fuel : ℕ) (s : D.State) (buffer buffer' : List ℕ) (size current n next : ℕ)
      → length buffer ≡ size
      → current < size
      → size < 2 ^ 31 - 1
      → n < 2 ^ 31
      → current + n ≡ next
      → (D.read s size current).1 ≡ n
      → overlay buffer 0 (D.read s size current).2 ≡ buffer'
      → read_loop D (suc fuel) s buffer current
        ≡ read_loop D fuel (D.read s size current).0 buffer' next
  read_loop-next fuel s buffer buffer' size current n next l h k q sum =
      subst
        (λ z.
          (D.read s z current).1 ≡ n
          → overlay buffer 0 (D.read s z current).2 ≡ buffer'
          → read_loop D (suc fuel) s buffer current
            ≡ read_loop D fuel (D.read s z current).0 buffer' next)
        l
        (λ e b.
          read_loop-more fuel s buffer current n next (omega (arith, l)) (omega (arith, l)) e q sum
          ∙ ap (λ b. read_loop D fuel (D.read s (length buffer) current).0 b next) b)

  module _ (lawful : IsLawful D) where
    open lawful use {content, bytes-read, content-read, content-write, length-content}

    read_file-sized :
        (s : D.State) (fuel size : ℕ)
        → length (content s) ≡ size
        → read_file D fuel s ≡ read_loop D fuel s (zeros size) 0
    read_file-sized s fuel size l = ap (λ n. read_loop D fuel s (zeros n) 0) (length-content s ∙ l)

    -- An operation that gives the file from `offset` on to its end.
    read-rest :
        (s : D.State) (size offset : ℕ)
        → length (content s) ≡ size
        → (D.read s size offset).1 ≡ size - offset
        → (D.read s size offset).2 ≡ drop offset (content s)
    read-rest s size offset l e =
        bytes-read s size offset (omega (arith, e))
        ∙ ap (λ n. take n (drop offset (content s)))
            (omega (arith, e, l, length-drop offset (content s)))
        ∙ take-all (drop offset (content s))

    -- An operation that gives the whole file at once.
    pub read_whole :
        (s : D.State) (fuel size : ℕ)
        → length (content s) ≡ size
        → 1 ≤ size
        → size < 2 ^ 31 - 1
        → (D.read s size 0).1 ≡ size
        → read_file D (suc (suc fuel)) s ≡ done (D.read s size 0).0 (content s)
    read_whole s fuel size l h k e =
        let got : (D.read s size 0).2 ≡ content s = read-rest s size 0 l (omega (arith, e)) in
        read_file-sized s (suc (suc fuel)) size l
        ∙ read_loop-next (suc fuel) s (zeros size) (content s) size 0 size size (length-zeros size)
            h k (omega arith) (omega arith) e
            (ap (overlay (zeros size) 0) got
              ∙ overlay-whole (zeros size) (content s) (length-zeros size ∙ sym l))
        ∙ read_loop-done fuel (D.read s size 0).0 (content s) size (sym l)

    -- Bytes that are written to an empty file and then read from it, each with an operation that
    -- transfers all it is asked to, are read as they were written; each of the two loops ends within
    -- two rounds.
    pub read_file-write_to_file :
        (s : D.State) (bytes : List ℕ) (fuel : ℕ)
        → content s ≡ []
        → 1 ≤ length bytes
        → length bytes < 2 ^ 31 - 1
        → (D.write s bytes 0).1 ≡ length bytes
        → (D.read (D.write s bytes 0).0 (length bytes) 0).1 ≡ length bytes
        → (write_to_file D (suc (suc fuel)) s bytes ≡ done (D.write s bytes 0).0 (length bytes))
          × (read_file D (suc (suc fuel)) (D.write s bytes 0).0
              ≡ done (D.read (D.write s bytes 0).0 (length bytes) 0).0 bytes)
    read_file-write_to_file s bytes fuel empty h k e e' =
        let (wrote, holds) = write_whole D lawful s bytes fuel h k e in
        let now : content (D.write s bytes 0).0 ≡ bytes =
          holds ∙ ap (λ c. overlay c 0 bytes) empty ∙ overlay-nil bytes in
        (
          wrote,
          read_whole (D.write s bytes 0).0 fuel (length bytes) (ap length now) h k e'
              ∙ ap (done (D.read (D.write s bytes 0).0 (length bytes) 0).0) now,
        )

    -- If the first operation gives a part of the file and the next one the rest of it, the rest comes
    -- over the start of the buffer.
    pub short_read_rotates :
        (s : D.State) (fuel part size : ℕ)
        → length (content s) ≡ size
        → 0 < part
        → part < size
        → size < 2 ^ 31 - 1
        → (D.read s size 0).1 ≡ part
        → (D.read (D.read s size 0).0 size part).1 ≡ size - part
        → read_file D (suc (suc (suc fuel))) s
          ≡ done
              (D.read (D.read s size 0).0 size part).0
              (overlay (overlay (zeros size) 0 (take part (content s))) 0 (drop part (content s)))
    short_read_rotates s fuel part size l p q k e e' =
        let s' = (D.read s size 0).0 in
        let same : content s' ≡ content s = content-read s size 0 in
        let first = overlay (zeros size) 0 (take part (content s)) in
        let sized : length first ≡ size =
          length-overlay (zeros size) (take part (content s))
            (omega (arith, length-zeros size, length-take part (content s) (omega (arith, l))))
          ∙ length-zeros size in
        let rest : (D.read s' size part).2 ≡ drop part (content s) =
          read-rest s' size part (ap length same ∙ l) e' ∙ ap (drop part) same in
        let second = overlay first 0 (drop part (content s)) in
        let sized' : length second ≡ size =
          length-overlay first (drop part (content s))
            (omega (arith, sized, length-drop part (content s), l))
          ∙ sized in
        read_file-sized s (suc (suc (suc fuel))) size l
        ∙ read_loop-next (suc (suc fuel)) s (zeros size) first size 0 part part (length-zeros size)
            (omega arith) k (omega arith) (omega arith) e
            (ap (overlay (zeros size) 0)
              (bytes-read s size 0 (omega (arith, e)) ∙ ap (λ n. take n (content s)) e))
        ∙ read_loop-next (suc fuel) s' first second size part (size - part) size sized q k
            (omega arith) (omega arith) e' (ap (overlay first 0) rest)
        ∙ read_loop-done fuel (D.read s' size part).0 second size (sym sized')

    -- A further `read_some` of an amount, where both transfer as many bytes, gives the same bytes again.
    pub read_amount_again :
        (s : D.State) (amount k : ℕ)
        → k ≤ amount
        → (D.read s amount 0).1 ≡ k
        → (D.read (D.read s amount 0).0 amount 0).1 ≡ k
        → (read_amount D (read_amount D s amount).0 amount).1 ≡ (read_amount D s amount).1
    unfolding read_amount
    read_amount_again s amount k h e e' =
        let s' = (D.read s amount 0).0 in
        let again : (D.read s' amount 0).2 ≡ (D.read s amount 0).2 =
          bytes-read s' amount 0 (omega (arith, e'))
          ∙ ap (λ c. take (D.read s' amount 0).1 (drop 0 c)) (content-read s amount 0)
          ∙ ap (λ r. take r (drop 0 (content s))) (e' ∙ sym e)
          ∙ sym (bytes-read s amount 0 (omega (arith, e))) in
        rw (again, e, e') refl
