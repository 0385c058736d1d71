-- ===== src/AsyncFile/Owner.antt =====
-- Which async_file has which descriptor: the constructors, the assignment and the destructor, `open` and
-- `close`. Objects are numbered by their places; `none` is a place without an object.
pub mod Accounts
use zab.Prelude.{
  ℕ, ◌+◌, ◌^◌, ◌<◌, ◌≡◌, ◌==◌, ltb, ◌&&◌, ◌||◌, Bool, true, false, Option, none, some, List, [],
  ◌∷◌, if◌then◌else◌, update,
}

-- `file::Option`
pub data OpenOption : Type 0 where
  read_only truncate append read_write rw_truncate rw_append : OpenOption

-- `open_options`, in the bits of fcntl.h: O_WRONLY is 1, O_RDWR 2, O_CREAT 64, O_TRUNC 512 and O_APPEND
-- 1024; the bits are distinct, so `|` is their sum.
abbrev pub open_options : OpenOption → ℕ
open_options read_only = 0
open_options truncate = 1 + 64 + 512
open_options append = 1 + 64 + 1024
open_options read_write = 2
open_options rw_truncate = 2 + 64 + 512
open_options rw_append = 2 + 64 + 1024

-- The open files and who had them: what the kernel gave to `open`, what a constructor found in the
-- memory of `file_`, which it does not set, what is closed or left to be closed in the background, and
-- what an `open` wrote over.
pub record Files : Type 0 where
  pub files : ℕ → Option ℕ
  pub opened : List ℕ
  pub stale : List ℕ
  pub closing : List ℕ
  pub lost : List ℕ

-- `if (file_) { … }`, for what is appended to a list.
abbrev pub if_any : ℕ → List ℕ → List ℕ
if_any fd fds = if fd == 0 then fds else fd ∷ fds

-- `async_file(engine*)`, where the memory of `file_` holds `memory`.
abbrev pub create : Files → ℕ → ℕ → Files
create w i memory = record w {
  files = update w.files i (some memory);
  stale = if_any memory w.stale;
}

-- `ret.result_ > 0`, of an `int`.
abbrev pub opens : ℕ → Bool
opens result = ltb 0 result && ltb result (2 ^ 31)

-- The resumption of `open` with the result, on an object that has `fd`.
abbrev pub open_resume : Files → ℕ → (fd result : ℕ) → Files
open_resume w i fd result =
    if opens result
    then record w {
      files = update w.files i (some result);
      opened = result ∷ w.opened;
      lost = if_any fd w.lost;
    }
    else w

-- The static `open` with the result, into a new object.
abbrev pub open_new : Files → ℕ → (memory result : ℕ) → Files
open_new w i memory result =
    if opens result then open_resume (create w i memory) i memory result else w

-- `async_file(async_file&&)`
abbrev pub move : Files → (from to fd : ℕ) → Files
move w from to fd = record w { files = update (update w.files to (some fd)) from (some 0) }

-- `operator=(async_file&&)`, on an object that has `old`.
abbrev pub assign : Files → (from to fd old : ℕ) → Files
assign w from to fd old = record w {
  files = update (update w.files to (some fd)) from (some 0);
  closing = if_any old w.closing;
}

-- `~async_file`
abbrev pub destroy : Files → ℕ → ℕ → Files
destroy w i fd = record w { files = update w.files i none; closing = if_any fd w.closing }

-- `close()`
abbrev pub close : Files → ℕ → ℕ → Files
close w i fd = record w { files = update w.files i (some 0); closing = fd ∷ w.closing }

-- What a program does with the objects in `n` places.
pub data Step (n : ℕ) (w : Files) : Files → Type 0 where
  creates : (i memory : ℕ) → i < n → w.files i ≡ none → Step n w (create w i memory)
  opens_at :
      (i result : ℕ) {fd : ℕ} → i < n → w.files i ≡ some fd → Step n w (open_resume w i fd result)
  opens_new :
      (i memory result : ℕ) → i < n → w.files i ≡ none → Step n w (open_new w i memory result)
  moves :
      (from to : ℕ) {fd : ℕ}
      → from < n
      → to < n
      → w.files from ≡ some fd
      → w.files to ≡ none
      → Step n w (move w from to fd)
  assigns :
      (from to : ℕ) {fd old : ℕ}
      → from < n
      → to < n
      → w.files from ≡ some fd
      → w.files to ≡ some old
      → Step n w (assign w from to fd old)
  destroys : (i : ℕ) {fd : ℕ} → i < n → w.files i ≡ some fd → Step n w (destroy w i fd)
  closes : (i : ℕ) {fd : ℕ} → i < n → w.files i ≡ some fd → Step n w (close w i fd)

abbrev pub start : Files
start = record { files = λ i. none; opened = []; stale = []; closing = []; lost = [] }

pub data Reach (n : ℕ) : Files → Type 0 where
  begun : Reach n start
  later : {before after : Files} → Reach n before → Step n before after → Reach n after
