-- ===== src/Runtime/Machine.antt =====
-- The state of the library of src/uso.c, the calls that it makes of other code, and the outcomes of
-- a run.
use Prim.Native.Nat.{Ordering}
use dragonuso.Common.{ℕ, Bool, Option, List, [], ◌∷◌, ◌++◌, Bool}
use dragonuso.Bytes.{Bytes}
use dragonuso.Text.{Str}

-- What the library does that other code can see.
pub data Event : Type 0 where
  called : ℕ → Event
  finalized : ℕ → Event
  frames_registered : ℕ → ℕ → Event
  frames_deregistered : ℕ → Event
  data_cache_invalidated : ℕ → ℕ → Event
  inst_cache_invalidated : ℕ → ℕ → Event
  notified_add : Event
  notified_remove : Event
  freed : ℕ → Event
  reported_unresolved : Str → Event
  reported_open_failure : Str → Event
  reported_load_failure : Str → Event

-- The memory, the global variables, and the events so far, the last one last.
pub record Machine : Type 0 where
  pub ram : Bytes
  pub list_head : ℕ
  pub list_tail : ℕ
  pub global_symbol_table : ℕ
  pub initted : Bool
  pub notify_add_func : Bool
  pub notify_remove_func : Bool
  pub events : List Event

abbrev pub emit : Machine → Event → Machine
emit s event = record s { events = s.events ++ (event ∷ []) }

-- How a run ends: with a value, at a failed `assertf`, at a read through a NULL pointer, or never.
pub data Run {ℓ} (A : Type ℓ) : Type ℓ where
  done : A → Run A
  assert_failed : Run A
  null_read : Run A
  runs_on : Run A

infixl 5 ◌>>=◌
abbrev pub ◌>>=◌ {ℓ κ} : {A : Type ℓ} {B : Type κ} → Run A → (A → Run B) → Run B
done a >>= f = f a
assert_failed >>= f = assert_failed
null_read >>= f = null_read
runs_on >>= f = runs_on

-- The code that the library does not contain. `call` is the effect of a function of a loaded file,
-- by its address. `bsearch` gets the comparison of the key with each index and the length.
pub record Env : Type 0 where
  pub call : ℕ → Machine → Machine
  pub cxa_finalize : ℕ → Machine → Machine
  pub malloc : Machine → ℕ → ℕ
  pub memalign : Machine → ℕ → ℕ → ℕ
  pub fopen : Str → Option (List ℕ)
  pub bsearch : (ℕ → Ordering) → ℕ → Option ℕ
