-- ===== src/SqlEditor/History/Laws.antt =====
-- The history is the newest part of all queries, and a reload brings it back.
use openscale.Base.{
  ◌≤◌, List, [], ◌∷◌, Bool, true, false, take, length, ◌≡◌, refl, ap, sym, ◌∙◌, take-cons-take,
  take_of_length_le,
}
use openscale.SqlEditor.History.{
  QueryHistoryEntry, max_entries, Storage, Json, IsJson, load_history, save, HistoryOp, adds,
  clears, apply_op, run_history, use_query_history, entries_of,
}

module _ {Number : Type 0} where
  -- All queries since the last clear, newest first, in front of the earlier ones.
  abbrev pub queries_onto :
      List (QueryHistoryEntry Number)
      → List (HistoryOp Number × Bool)
      → List (QueryHistoryEntry Number)
  queries_onto earlier [] = earlier
  queries_onto earlier ((adds e, accepted) ∷ ops) = queries_onto (e ∷ earlier) ops
  queries_onto earlier ((clears, accepted) ∷ ops) = queries_onto [] ops

  -- The queries at the last write that the storage accepts, `kept` being those of the writes before;
  -- `earlier` are all queries so far.
  abbrev pub written_onto :
      (kept earlier : List (QueryHistoryEntry Number))
      → List (HistoryOp Number × Bool)
      → List (QueryHistoryEntry Number)
  written_onto kept earlier [] = kept
  written_onto kept earlier ((adds e, true) ∷ ops) = written_onto (e ∷ earlier) (e ∷ earlier) ops
  written_onto kept earlier ((adds e, false) ∷ ops) = written_onto kept (e ∷ earlier) ops
  written_onto kept earlier ((clears, true) ∷ ops) = written_onto [] [] ops
  written_onto kept earlier ((clears, false) ∷ ops) = written_onto kept [] ops

module _ {Number Raw : Type 0} (json : Json Number Raw) where
  run_history-shown :
      (ops : List (HistoryOp Number × Bool)) (shown all_of : List (QueryHistoryEntry Number))
      (storage : Storage Raw)
      → shown ≡ take max_entries all_of
      → (run_history json ops shown storage).0 ≡ take max_entries (queries_onto all_of ops)
  unfolding run_history
  run_history-shown [] shown all_of storage h = h
  run_history-shown ((adds e, accepted) ∷ ops) shown all_of storage h =
      run_history-shown ops _ (e ∷ all_of) _
        (ap (λ l. take max_entries (e ∷ l)) h ∙ take-cons-take max_entries e all_of)
  run_history-shown ((clears, accepted) ∷ ops) shown all_of storage h =
      run_history-shown ops [] [] _ refl

  load-save :
      (es : List (QueryHistoryEntry Number)) (storage : Storage Raw)
      → IsJson json
      → load_history json (save json true es storage) ≡ es
  unfolding load_history
  load-save es storage law = ap (entries_of json) (law.parse-stringify es)

  run_history-stored :
      (ops : List (HistoryOp Number × Bool)) (kept shown all_of : List (QueryHistoryEntry Number))
      (storage : Storage Raw)
      → IsJson json
      → shown ≡ take max_entries all_of
      → load_history json storage ≡ take max_entries kept
      → load_history json (run_history json ops shown storage).1
        ≡ take max_entries (written_onto kept all_of ops)
  unfolding run_history
  run_history-stored [] kept shown all_of storage law h k = k
  run_history-stored ((adds e, true) ∷ ops) kept shown all_of storage law h k =
      let next = ap (λ l. take max_entries (e ∷ l)) h ∙ take-cons-take max_entries e all_of in
      run_history-stored ops (e ∷ all_of) _ (e ∷ all_of) _ law next
        (load-save (apply_op (adds e) shown) storage law ∙ next)
  run_history-stored ((adds e, false) ∷ ops) kept shown all_of storage law h k =
      let next = ap (λ l. take max_entries (e ∷ l)) h ∙ take-cons-take max_entries e all_of in
      run_history-stored ops kept _ (e ∷ all_of) storage law next k
  run_history-stored ((clears, true) ∷ ops) kept shown all_of storage law h k =
      run_history-stored ops [] [] [] _ law refl (load-save [] storage law)
  run_history-stored ((clears, false) ∷ ops) kept shown all_of storage law h k =
      run_history-stored ops kept [] [] storage law refl k

  mount-saves :
      (storage : Storage Raw) (accepted : Bool)
      → IsJson json
      → load_history json (save json accepted (load_history json storage) storage)
        ≡ load_history json storage
  mount-saves storage true law = load-save (load_history json storage) storage law
  mount-saves storage false law = refl

  -- If parsing a text of JSON gives back what was written, and the stored history is no longer than
  -- the cap, then the entries shown are the newest 50 of all queries since the last clear, the stored
  -- ones behind; and whichever writes the storage refuses, a reload shows the newest 50 as they were
  -- at the last write that it accepted, or the stored ones if it accepted none.
  pub use_query_history_lem :
      (storage : Storage Raw) (accepted : Bool) (ops : List (HistoryOp Number × Bool))
      → IsJson json
      → length (load_history json storage) ≤ 50
      → let (es, after) = use_query_history json storage accepted ops in
        let stored = load_history json storage in
        (es ≡ take 50 (queries_onto stored ops))
        × (load_history json after ≡ take 50 (written_onto stored stored ops))
  unfolding use_query_history
  use_query_history_lem storage accepted ops law few =
      let stored = load_history json storage in
      let whole = sym (take_of_length_le 50 stored few) in
      (
        run_history-shown ops _ stored _ whole,
        run_history-stored ops stored stored stored _ law whole
            (mount-saves storage accepted law ∙ whole),
      )
