-- ===== src/AsyncFile.antt =====
-- includes/zab/async_file.hpp, for a `ReadType` of one byte. What io_uring does for a request on a file
-- is the parameter `Disk`; an `int` is a 32-bit pattern, and a request for bytes outside of its buffer
-- is the fault `overrun`.
pub mod Owner
pub mod Write
pub mod Read
pub mod EndOfFile
mod Tests
use zab.Prelude.{
  ℕ, zero, suc, ◌+◌, ◌-◌, ◌%◌, ◌^◌, ◌≤◌, ◌<◌, ◌≡◌, ◌==◌, min, ltb, leb, Bool, true, false, Option,
  none, some, List, [], ◌∷◌, ◌++◌, if◌then◌else◌, length, take, drop, add64, sub64,
}

-- A file that is open, in some state: a read gives its result with the bytes that it stored, a write
-- gives its result, and `file_end` is what lseek(2) returns for the end.
pub record Disk : Type 1 where
  pub State : Type 0
  pub read : State → (amount offset : ℕ) → State × ℕ × List ℕ
  pub write : State → (bytes : List ℕ) → (offset : ℕ) → State × ℕ
  pub file_end : State → ℕ

-- The bytes of a file from `offset` on replaced; a gap is filled with zeros.
abbrev pub overlay : List ℕ → (offset : ℕ) → List ℕ → List ℕ
overlay content zero [] = content
overlay [] zero (b ∷ bs) = b ∷ bs
overlay (c ∷ content) zero (b ∷ bs) = b ∷ overlay content zero bs
overlay [] (suc offset) bs = 0 ∷ overlay [] offset bs
overlay (c ∷ content) (suc offset) bs = c ∷ overlay content offset bs

-- What pread(2) and pwrite(2) promise: up to the amount asked for is transferred, at the offset.
pub record IsLawful (D : Disk) : Type 0 where
  pub content : D.State → List ℕ
  pub content-write :
      (s : D.State) (bytes : List ℕ) (offset : ℕ)
      → (D.write s bytes offset).1 ≤ length bytes
      → content (D.write s bytes offset).0
        ≡ overlay (content s) offset (take (D.write s bytes offset).1 bytes)
  pub content-read :
      (s : D.State) (amount offset : ℕ) → content (D.read s amount offset).0 ≡ content s
  pub bytes-read :
      (s : D.State) (amount offset : ℕ)
      → (D.read s amount offset).1 ≤ amount
      → (D.read s amount offset).2 ≡ take (D.read s amount offset).1 (drop offset (content s))
  pub length-content : (s : D.State) → D.file_end s ≡ length (content s)

-- How a loop ends.
pub data Ends (S V : Type 0) : Type 0 where
  done : S → V → Ends S V
  overrun : Ends S V
  out_of_fuel : Ends S V

-- A `std::size_t` as the `std::int32_t` parameter `_off_set`, and that extended to 64 bits.
abbrev pub off_set : ℕ → ℕ
off_set current =
    let low = current % 2 ^ 32 in if ltb low (2 ^ 31) then low else low + 2 ^ 64 - 2 ^ 32

-- `std::min(_data.size() - _off_set, max - 1)`
abbrev pub at_once : (size off : ℕ) → ℕ
at_once size off = min (sub64 size off) (2 ^ 31 - 2)

-- The size of the span that `convert(_data, _off_set + amount)` makes from the start of the buffer.
abbrev pub span_size : (size off : ℕ) → ℕ
span_size size off = add64 off (at_once size off)

-- `ret.result_ >= 0`, then the result as a `std::size_t`.
abbrev pub amount_of : ℕ → Option ℕ
amount_of result = if ltb result (2 ^ 31) then some result else none

-- `std::vector<ReadType> data(size)`
abbrev pub zeros : ℕ → List ℕ
zeros zero = []
zeros (suc n) = 0 ∷ zeros n

module _ (D : Disk) where
  -- `write_some`: none is a request beyond the buffer.
  unfoldable pub write_some : D.State → List ℕ → (off : ℕ) → Option (D.State × Option ℕ)
  write_some s bytes off =
      let size = span_size (length bytes) off in
      let (s', result) = D.write s (take size bytes) off in
      if leb size (length bytes) then some (s', amount_of result) else none

  -- One round of the loop of `write_to_file`, with what the loop does after it.
  abbrev pub write_round :
      (D.State → ℕ → Ends D.State ℕ) → ℕ → Option (D.State × Option ℕ) → Ends D.State ℕ
  write_round next current none = overrun
  write_round next current (some (s, none)) = done s current
  write_round next current (some (s, some n)) =
      if ltb 0 n then next s (add64 current n) else done s current

  pub write_loop : (fuel : ℕ) → D.State → List ℕ → (current : ℕ) → Ends D.State ℕ
  write_loop zero s bytes current = out_of_fuel
  write_loop (suc fuel) s bytes current =
      let more =
        write_round (λ s' current'. write_loop fuel s' bytes current') current
          (write_some s bytes (off_set current)) in
      if current == length bytes then done s current else more

  -- `write_to_file`, the bytes it has written.
  abbrev pub write_to_file : (fuel : ℕ) → D.State → List ℕ → Ends D.State ℕ
  write_to_file fuel s bytes = write_loop fuel s bytes 0

  -- `read_some` into a buffer: the bytes come to its start.
  unfoldable pub read_some : D.State → List ℕ → (off : ℕ) → Option (D.State × List ℕ × Option ℕ)
  read_some s buffer off =
      let size = span_size (length buffer) off in
      let (s', result, bytes) = D.read s size off in
      if leb size (length buffer) then some (s', overlay buffer 0 bytes, amount_of result) else none

  -- `read_some(_amount)`, which reads from the start of the file: the bytes, if it does not fail.
  unfoldable pub read_amount : D.State → (amount : ℕ) → D.State × Option (List ℕ)
  read_amount s amount =
      let (s', result, bytes) = D.read s amount 0 in
      (
        s',
        if ltb result (2 ^ 31) then some (take result (overlay (zeros amount) 0 bytes)) else none,
      )

  abbrev pub read_round :
      (D.State → List ℕ → ℕ → Ends D.State (List ℕ))
      → ℕ
      → Option (D.State × List ℕ × Option ℕ)
      → Ends D.State (List ℕ)
  read_round next current none = overrun
  read_round next current (some (s, buffer, none)) = done s (take current buffer)
  read_round next current (some (s, buffer, some n)) = next s buffer (add64 current n)

  pub read_loop : (fuel : ℕ) → D.State → List ℕ → (current : ℕ) → Ends D.State (List ℕ)
  read_loop zero s buffer current = out_of_fuel
  read_loop (suc fuel) s buffer current =
      let more =
        read_round (λ s' buffer' current'. read_loop fuel s' buffer' current') current
          (read_some s buffer (off_set current)) in
      if current == length buffer then done s buffer else more

  -- `read_file`, with a buffer of the file's size.
  abbrev pub read_file : (fuel : ℕ) → D.State → Ends D.State (List ℕ)
  read_file fuel s = read_loop fuel s (zeros (D.file_end s)) 0
