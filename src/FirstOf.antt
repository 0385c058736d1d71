-- ===== src/FirstOf.antt =====
-- includes/zab/first_of.hpp: `first_of` on futures with results in `A`. Each is awaited by a function
-- of its own, and all share the pause pack of the awaiting coroutine through an atomic pointer.
pub mod Winner
mod Tests
use zab.Prelude.{
  ℕ, suc, ◌<◌, ◌≡◌, ◌==◌, Bool, true, false, update, if◌then◌else◌, Option, some, none,
}

-- Where the function of a future stands.
pub data Pc (A : Type 0) : Type 0 where
  fresh : Pc A  -- not started
  running : Pc A  -- `co_await _future`
  won : A → Pc A  -- the exchange gave the pack; before the store of the result
  stored : Pc A  -- before `unpause`
  over : Pc A

-- Whether the shared pointer is not null, the result, and how often the coroutine was unpaused; `first`
-- is the number of the future whose exchange gave the pack, with its value.
pub record Race (A : Type 0) : Type 0 where
  pub started : ℕ
  pub handle : Bool
  pub result : Option (ℕ × A)
  pub resumed : ℕ
  pub pc : ℕ → Pc A
  pub first : Option (ℕ × A)

module _ {A : Type 0} where
  abbrev pub init : Race A
  init = record {
    started = 0;
    handle = true;
    result = none;
    resumed = 0;
    pc = λ i. fresh;
    first = none;
  }

  abbrev pub start : Race A → Race A
  start r = record r { started = suc r.started; pc = update r.pc r.started running }

  -- `_handle->exchange(nullptr)` by the function of the future `i`, which completed with `value`.
  abbrev pub exchange : Race A → ℕ → A → Race A
  exchange r i value = record r {
    handle = false;
    pc = update r.pc i (if r.handle then won value else over);
    first = if r.handle then some (i, value) else r.first;
  }

  abbrev pub store : Race A → ℕ → A → Race A
  store r i value = record r { result = some (i, value); pc = update r.pc i stored }

  abbrev pub unpause : Race A → ℕ → Race A
  unpause r i = record r { resumed = suc r.resumed; pc = update r.pc i over }

  -- The functions start in order, and complete in any.
  pub data Step (n : ℕ) (r : Race A) : Race A → Type 0 where
    starts : r.started < n → Step n r (start r)
    exchanges : (i : ℕ) (value : A) → i < n → r.pc i ≡ running → Step n r (exchange r i value)
    stores : (i : ℕ) {value : A} → i < n → r.pc i ≡ won value → Step n r (store r i value)
    unpauses : (i : ℕ) → i < n → r.pc i ≡ stored → Step n r (unpause r i)

  pub data Reach (n : ℕ) : Race A → Type 0 where
    begun : Reach n init
    later : {before after : Race A} → Reach n before → Step n before after → Reach n after
