-- ===== src/AsyncFile/Tests.antt =====
-- A file in memory, of which the first operation transfers at most `first` bytes.
use zab.Prelude.{
  ℕ, zero, suc, ◌+◌, ◌≡◌, ◌==◌, List, [], ◌∷◌, refl, arith, ap, sym, length, take, drop,
  if◌then◌else◌, count, total,
}
use zab.AsyncFile.{Disk, IsLawful, overlay, done, overrun, out_of_fuel, write_to_file, read_file}
use zab.AsyncFile.Write.{short_write_overruns}
use zab.AsyncFile.Read.{read_file-write_to_file}
use zab.AsyncFile.EndOfFile.{read_file-out_of_fuel}
use zab.AsyncFile.Owner.{
  Files, start, create, open_resume, move, destroy, Reach, begun, later, creates, opens_at, moves,
  destroys,
}
use zab.AsyncFile.Owner.Accounts.{has, files-IsAccounted}

record Memory : Type 0 where
  bytes : List ℕ
  first : ℕ

abbrev limit : Memory → ℕ → ℕ
limit m amount = if m.first == 0 then amount else m.first

abbrev memory : Disk
memory = record {
  State = Memory;
  read = λ m amount offset. (
    record m { first = 0 },
    length (take (limit m amount) (take amount (drop offset m.bytes))),
    take (limit m amount) (take amount (drop offset m.bytes)),
  );
  write = λ m bytes offset. (
    record { bytes = overlay m.bytes offset (take (limit m (length bytes)) bytes); first = 0 },
    length (take (limit m (length bytes)) bytes),
  );
  file_end = λ m. length m.bytes;
}

take-length-take : (k : ℕ) (xs : List ℕ) → take (length (take k xs)) xs ≡ take k xs
take-length-take zero xs = refl
take-length-take (suc k) [] = refl
take-length-take (suc k) (x ∷ xs) = ap (λ t. x ∷ t) (take-length-take k xs)

take-take : (k n : ℕ) (xs : List ℕ) → take (length (take k (take n xs))) xs ≡ take k (take n xs)
take-take zero n xs = refl
take-take (suc k) zero xs = refl
take-take (suc k) (suc n) [] = refl
take-take (suc k) (suc n) (x ∷ xs) = ap (λ t. x ∷ t) (take-take k n xs)

memory-IsLawful : IsLawful memory
memory-IsLawful = record {
  content = λ m. m.bytes;
  content-write = λ m bytes offset h.
      ap (overlay m.bytes offset) (sym (take-length-take (limit m (length bytes)) bytes));
  content-read = λ m amount offset. refl;
  bytes-read = λ m amount offset h. sym (take-take (limit m amount) amount (drop offset m.bytes));
  length-content = λ m. refl;
}

abbrev bytes : List ℕ
bytes = 7 ∷ 8 ∷ 9 ∷ []

abbrev empty_file : Memory
empty_file = record { bytes = []; first = 0 }

read_file-write_to_file_example :
    (write_to_file memory 2 empty_file bytes
      ≡ done (memory.write empty_file bytes 0).0 (length bytes))
    × (read_file memory 2 (memory.write empty_file bytes 0).0
        ≡ done (memory.read (memory.write empty_file bytes 0).0 (length bytes) 0).0 bytes)
unfolding memory-IsLawful
read_file-write_to_file_example =
    read_file-write_to_file memory memory-IsLawful empty_file bytes 0 refl (omega arith)
      (omega arith) refl refl

abbrev slow_file : Memory
slow_file = record { bytes = []; first = 1 }

abbrev after_first : Memory
after_first = (memory.write slow_file bytes 0).0

short_write_overruns_example :
    (write_to_file memory 3 slow_file bytes ≡ overrun)
    × (memory-IsLawful.content (memory.write after_first bytes 1).0
        ≡ overlay (overlay (memory-IsLawful.content slow_file) 0 (take 1 bytes)) 1 bytes)
short_write_overruns_example =
    short_write_overruns memory memory-IsLawful slow_file bytes 0 1 (omega arith) (omega arith)
      (omega arith) refl refl

-- An object is opened, moved and destroyed; then another is opened twice.
abbrev used : Files
used =
    open_resume
      (open_resume (create (destroy (move (open_resume (create start 0 0) 0 0 5) 0 1 5) 1 5) 2 0) 2
        0 6)
      2 6 7

used-Reach : Reach 3 used
used-Reach =
    later
      (later
        (later
          (later
            (later
              (later (later begun (creates 0 0 (omega arith) refl))
                (opens_at 0 5 (omega arith) refl))
              (moves 0 1 (omega arith) (omega arith) refl refl))
            (destroys 1 (omega arith) refl))
          (creates 2 0 (omega arith) refl))
        (opens_at 2 6 (omega arith) refl))
      (opens_at 2 7 (omega arith) refl)

files-IsAccounted_example :
    count 6 used.opened + count 6 used.stale
    ≡ total (has 6) 3 used.files + (count 6 used.closing + count 6 used.lost)
files-IsAccounted_example = files-IsAccounted 3 6 (omega arith) used-Reach

-- A file that transfers nothing.
abbrev silent : Disk
silent = record {
  State = List ℕ;
  read = λ content amount offset. (content, 0, []);
  write = λ content bytes offset. (overlay content offset (take 0 bytes), 0);
  file_end = length;
}

silent-IsLawful : IsLawful silent
silent-IsLawful = record {
  content = λ content. content;
  content-write = λ content bytes offset h. refl;
  content-read = λ content amount offset. refl;
  bytes-read = λ content amount offset h. refl;
  length-content = λ content. refl;
}

read_file-out_of_fuel_example : read_file silent 1000 bytes ≡ out_of_fuel
read_file-out_of_fuel_example =
    read_file-out_of_fuel silent silent-IsLawful 3 (λ content. refl) 1000 bytes (omega arith)
      (omega arith) refl
