-- ===== src/Network.antt =====
-- includes/zab/network_operation.hpp and src/network_operation.cpp: an object that owns a socket
-- descriptor and a cancelation token. An `int` is a 32-bit pattern, and a null token 0; the engine that
-- the object is registered with is left out.
pub mod Ownership
pub mod Accounts
mod Tests
use zab.Prelude.{
  ℕ, ◌-◌, ◌%◌, ◌^◌, ◌==◌, leb, ltb, ◌&&◌, not, Bool, true, false, List, [], ◌∷◌, ◌++◌,
  if◌then◌else◌,
}
use zab.Uring.Operations.{CancelResult, done, not_found, tried, failed, unknown, cancel_code}

-- `kNoDescriptor`
abbrev pub no_descriptor : ℕ
no_descriptor = 2 ^ 32 - 1

-- `-_result` of an `int`
abbrev pub neg32 : ℕ → ℕ
neg32 a = (2 ^ 32 - a) % 2 ^ 32

-- `sd_ >= 0`
abbrev pub is_valid : ℕ → Bool
is_valid sd = ltb sd (2 ^ 31)

-- `_handle > 0`
abbrev pub is_positive : ℕ → Bool
is_positive a = ltb 0 a && ltb a (2 ^ 31)

pub record NetworkOperation : Type 0 where
  pub cancel_token : ℕ
  pub sd : ℕ
  pub last_error : ℕ

-- What is left to fibres in the background: the descriptors to close and the tokens to cancel.
pub record Background : Type 0 where
  pub closing : List ℕ
  pub cancelling : List ℕ

abbrev pub empty : NetworkOperation
empty = record { cancel_token = 0; sd = no_descriptor; last_error = 0 }

-- The constructor with a descriptor.
abbrev pub owner : ℕ → NetworkOperation
owner sd = record { cancel_token = 0; sd = sd; last_error = 0 }

-- `background_close`, up to its first suspension.
unfoldable pub background_close : NetworkOperation → Background → NetworkOperation × Background
background_close o b =
    if o.sd == no_descriptor
    then (o, b)
    else (record o { sd = no_descriptor }, record b { closing = b.closing ++ (o.sd ∷ []) })

-- `background_cancel`, up to its first suspension.
unfoldable pub background_cancel : NetworkOperation → Background → NetworkOperation × Background
background_cancel o b =
    (record o { cancel_token = 0 }, record b { cancelling = b.cancelling ++ (o.cancel_token ∷ []) })

-- What the destructor and the move assignment begin with.
unfoldable pub reset : NetworkOperation → Background → NetworkOperation × Background
reset o b =
    let (o', b') = if o.cancel_token == 0 then (o, b) else background_cancel o b in
    if is_valid o'.sd then background_close o' b' else (o', b')

-- The move constructor: the new object and what it leaves.
unfoldable pub move : NetworkOperation → NetworkOperation × NetworkOperation
move from = (from, empty)

-- The move assignment between two different objects.
unfoldable pub move_assign :
    (to from : NetworkOperation) → Background → NetworkOperation × NetworkOperation × Background
move_assign to from b = let (to', b') = reset to b in (from, to', b')

-- `set_descriptor`
unfoldable pub set_descriptor : NetworkOperation → ℕ → Background → NetworkOperation × Background
set_descriptor o sd b =
    let (o', b') = if is_valid o.sd then background_close o b else (o, b) in
    (record o' { sd = sd }, b')

-- `last_error`, which clears it.
abbrev pub last_error : NetworkOperation → NetworkOperation × ℕ
last_error o = (record o { last_error = 0 }, o.last_error)

-- `close`: whether it is ready at once, and its resumption with the result of the operation.
abbrev pub close_ready : NetworkOperation → Bool
close_ready o = not (is_valid o.sd)

unfoldable pub close_resume : NetworkOperation → ℕ → NetworkOperation × Bool
close_resume o result =
    if result == 0
    then (record o { sd = no_descriptor }, true)
    else (record o { last_error = neg32 result }, false)

-- `cancel`: whether it is ready at once, and its resumption with the result of the cancelation, on the
-- token that it refers to.
abbrev pub cancel_ready : (token : ℕ) → Bool
cancel_ready token = token == 0

unfoldable pub cancel_resume : (token result : ℕ) → ℕ × CancelResult
cancel_resume token result = elim (cancel_code result) [
  | failed ↦ (token, failed)
  | done ↦ (0, done)
  | not_found ↦ (0, not_found)
  | tried ↦ (0, tried)
  | unknown ↦ (0, unknown)
]
