-- ===== src/AsyncFile/Owner/Accounts.antt =====
-- Every descriptor is accounted for.
use zab.Prelude.{
  ℕ, ◌+◌, ◌≤◌, ◌<◌, ◌≡◌, ◌==◌, Option, none, some, List, if◌then◌else◌, update, arith, refl, ap,
  count, total, total-update, total-zero, Bool-cases, inl, inr, ==-self,
}
use zab.AsyncFile.Owner.{
  Files, if_any, opens, create, open_resume, open_new, Step, creates, opens_at, opens_new, moves,
  assigns, destroys, closes, Reach, begun, later,
}

-- Whether an object has the descriptor `d`.
abbrev pub has : ℕ → Option ℕ → ℕ
has d none = 0
has d (some fd) = if d == fd then 1 else 0

module _ (n d : ℕ) (valid : 1 ≤ d) where
  -- What came in is with an object, closed, or written over.
  abbrev pub IsAccounted : Files → Type 0
  IsAccounted w =
      count d w.opened + count d w.stale
      ≡ total (has d) n w.files + (count d w.closing + count d w.lost)

  count-if_any : (fd : ℕ) (fds : List ℕ) → count d (if_any fd fds) ≡ has d (some fd) + count d fds
  count-if_any fd fds = ground arith

  -- Two places that change, one after the other.
  total-move :
      (files : ℕ → Option ℕ) (from to fd : ℕ)
      → from < n
      → to < n
      → files from ≡ some fd
      → total (has d) n (update (update files to (some fd)) from (some 0)) + has d (files to)
        ≡ total (has d) n files
  total-move files from to fd low low' e = ground (
    arith,
    total-update (has d) n (update files to (some fd)) from (some 0) low,
    total-update (has d) n files to (some fd) low',
    ap (has d) e,
  )

  create-IsAccounted :
      (w : Files) (i memory : ℕ)
      → i < n
      → w.files i ≡ none
      → IsAccounted w
      → IsAccounted (create w i memory)
  create-IsAccounted w i memory low e a = omega (
    arith,
    a,
    total-update (has d) n w.files i (some memory) low,
    ap (has d) e,
    count-if_any memory w.stale,
  )

  open_resume-IsAccounted :
      (w : Files) (i fd result : ℕ)
      → i < n
      → w.files i ≡ some fd
      → IsAccounted w
      → IsAccounted (open_resume w i fd result)
  open_resume-IsAccounted w i fd result low e a = elim (Bool-cases (opens result)) [
    | inl z ↦ rw z (
        ground (
          arith,
          a,
          total-update (has d) n w.files i (some result) low,
          ap (has d) e,
          count-if_any fd w.lost,
        ))
    | inr z ↦ rw z a
  ]

  open_new-IsAccounted :
      (w : Files) (i memory result : ℕ)
      → i < n
      → w.files i ≡ none
      → IsAccounted w
      → IsAccounted (open_new w i memory result)
  open_new-IsAccounted w i memory result low e a =
      let opened =
        open_resume-IsAccounted (create w i memory) i memory result low (rw (==-self i) refl)
          (create-IsAccounted w i memory low e a) in
      elim (Bool-cases (opens result)) [ inl z ↦ rw z (rw z at opened) | inr z ↦ rw z a ]

  Step-IsAccounted : {w t : Files} → IsAccounted w → Step n w t → IsAccounted t
  Step-IsAccounted {w} a (creates i memory low e) = create-IsAccounted w i memory low e a
  Step-IsAccounted {w} a (opens_at i result {fd} low e) =
      open_resume-IsAccounted w i fd result low e a
  Step-IsAccounted {w} a (opens_new i memory result low e) =
      open_new-IsAccounted w i memory result low e a
  Step-IsAccounted {w} a (moves from to {fd} low low' e e') =
      omega (arith, a, total-move w.files from to fd low low' e, ap (has d) e')
  Step-IsAccounted {w} a (assigns from to {fd} {old} low low' e e') = omega (
    arith,
    a,
    total-move w.files from to fd low low' e,
    ap (has d) e',
    count-if_any old w.closing,
  )
  Step-IsAccounted {w} a (destroys i {fd} low e) =
      omega (
        arith,
        a,
        total-update (has d) n w.files i none low,
        ap (has d) e,
        count-if_any fd w.closing,
      )
  Step-IsAccounted {w} a (closes i {fd} low e) =
      ground (arith, a, total-update (has d) n w.files i (some 0) low, ap (has d) e)

  -- Over any constructions, moves, assignments, opens, closes and destructions of async_files, every
  -- descriptor but 0 is in the end, as often as it was given to `open` or found by a constructor in
  -- the memory of `file_`, with an object, closed, or written over by an `open` of an object that had
  -- it.
  pub files-IsAccounted : {w : Files} → Reach n w → IsAccounted w
  files-IsAccounted begun = omega (arith, total-zero (has d) n (λ i. none) (λ i. refl))
  files-IsAccounted (later r s) = Step-IsAccounted (files-IsAccounted r) s
