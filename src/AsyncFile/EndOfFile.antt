-- ===== src/AsyncFile/EndOfFile.antt =====
-- `read_file` on a file that was cut after its size was asked for.
use zab.Prelude.{ℕ, zero, suc, ◌^◌, ◌-◌, ◌<◌, ◌≡◌, refl, ap, ◌∙◌, List, length, take, drop, arith}
use zab.AsyncFile.{Disk, IsLawful, overlay, out_of_fuel, zeros, read_loop, read_file}
use zab.AsyncFile.Read.{length-zeros, read_loop-next}

module _ (D : Disk) (lawful : IsLawful D) (size : ℕ)
    (silent : (s : D.State) → (D.read s size 0).1 ≡ 0) where
  open lawful use {content, bytes-read}

  nothing_read : (s : D.State) (buffer : List ℕ) → overlay buffer 0 (D.read s size 0).2 ≡ buffer
  nothing_read s buffer = ap (overlay buffer 0) (
      bytes-read s size 0 (omega (arith, silent s))
      ∙ ap (λ n. take n (drop 0 (content s))) (silent s))

  read_loop-stuck :
      (fuel : ℕ) (s : D.State) (buffer : List ℕ)
      → 0 < size
      → size < 2 ^ 31 - 1
      → length buffer ≡ size
      → read_loop D fuel s buffer 0 ≡ out_of_fuel
  unfolding read_loop
  read_loop-stuck zero s buffer p h l = refl
  read_loop-stuck (suc fuel) s buffer p h l =
      read_loop-next D fuel s buffer buffer size 0 0 0 l p h (omega arith) (omega arith) (silent s)
        (nothing_read s buffer)
      ∙ read_loop-stuck fuel (D.read s size 0).0 buffer p h l

  -- If the file had a size when it was asked for, and the reads of that much from its start then give no
  -- bytes, as they do at the end of a file, `read_file` goes on for ever: no fuel is enough.
  pub read_file-out_of_fuel :
      (fuel : ℕ) (s : D.State)
      → 0 < size
      → size < 2 ^ 31 - 1
      → D.file_end s ≡ size
      → read_file D fuel s ≡ out_of_fuel
  read_file-out_of_fuel fuel s p h e =
      read_loop-stuck fuel s (zeros (D.file_end s)) p h (length-zeros (D.file_end s) ∙ e)
