-- ===== src/SqlEditor/History.antt =====
-- frontend/src/domains/sql-editor/application/useQueryHistory.ts: the history of queries and its copy
-- in the browser's storage.
mod Laws
mod Tests
use openscale.Base.{
  ℕ, Text, List, [], ◌∷◌, Option, none, some, Bool, true, false, if◌then◌else◌, take, ◌≡◌,
}

-- `row_count` is missing after a failed query; `Number` is the host's number type.
pub record QueryHistoryEntry (Number : Type 0) : Type 0 where
  pub sql : Text
  pub ran_at : Text
  pub success : Bool
  pub row_count : Option Number

abbrev pub max_entries : ℕ
max_entries = 50

-- The storage item: reading it throws, or gives the item if there is one.
pub data Storage (Raw : Type 0) : Type 0 where
  unavailable : Storage Raw
  available : Option Raw → Storage Raw

-- What `JSON.parse` gives: an exception, an array of entries, or something else.
pub data Parsed (Number : Type 0) : Type 0 where
  throws : Parsed Number
  entries : List (QueryHistoryEntry Number) → Parsed Number
  no_array : Parsed Number

pub record Json (Number Raw : Type 0) : Type 0 where
  pub parse : Raw → Parsed Number
  pub stringify : List (QueryHistoryEntry Number) → Raw

-- The documented behaviour on which the reload rests.
pub record IsJson {Number Raw : Type 0} (json : Json Number Raw) : Type 0 where
  pub parse-stringify :
      (es : List (QueryHistoryEntry Number)) → json.parse (json.stringify es) ≡ entries es

module _ {Number Raw : Type 0} (json : Json Number Raw) where
  abbrev pub entries_of : Parsed Number → List (QueryHistoryEntry Number)
  entries_of throws = []
  entries_of (entries es) = es
  entries_of no_array = []

  -- An empty item, which the source takes for a missing one, makes `parse` throw.
  unfoldable pub load_history : Storage Raw → List (QueryHistoryEntry Number)
  load_history unavailable = []
  load_history (available none) = []
  load_history (available (some raw)) = entries_of (json.parse raw)

  -- The effect on `[entries]`: a write that the storage refuses changes nothing.
  abbrev pub save : Bool → List (QueryHistoryEntry Number) → Storage Raw → Storage Raw
  save accepted es storage = if accepted then available (some (json.stringify es)) else storage

abbrev pub add_entry :
    {Number : Type 0}
    → QueryHistoryEntry Number
    → List (QueryHistoryEntry Number)
    → List (QueryHistoryEntry Number)
add_entry entry current = take max_entries (entry ∷ current)

pub data HistoryOp (Number : Type 0) : Type 0 where
  adds : QueryHistoryEntry Number → HistoryOp Number
  clears : HistoryOp Number

abbrev pub apply_op :
    {Number : Type 0}
    → HistoryOp Number
    → List (QueryHistoryEntry Number)
    → List (QueryHistoryEntry Number)
apply_op (adds e) current = add_entry e current
apply_op clears current = []

module _ {Number Raw : Type 0} (json : Json Number Raw) where
  -- The entries shown and the storage, after calls of `addEntry` and `clear`; with each comes
  -- whether the storage accepts the write of its effect.
  unfoldable pub run_history :
      List (HistoryOp Number × Bool)
      → List (QueryHistoryEntry Number)
      → Storage Raw
      → List (QueryHistoryEntry Number) × Storage Raw
  run_history [] shown storage = (shown, storage)
  run_history ((op, accepted) ∷ ops) shown storage =
      run_history ops (apply_op op shown) (save json accepted (apply_op op shown) storage)

  -- The screen's life: the state's initial value, the effect of the mount, and the calls.
  unfoldable pub use_query_history :
      Storage Raw
      → Bool
      → List (HistoryOp Number × Bool)
      → List (QueryHistoryEntry Number) × Storage Raw
  use_query_history storage accepted ops =
      run_history ops (load_history json storage)
        (save json accepted (load_history json storage) storage)
