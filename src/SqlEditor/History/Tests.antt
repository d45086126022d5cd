-- ===== src/SqlEditor/History/Tests.antt =====
-- A history of two queries over one stored before, with lists of entries for texts of JSON.
use openscale.Base.{ℕ, codes, List, [], ◌∷◌, none, some, Bool, true, false, ◌≡◌, refl, arith, take}
use openscale.SqlEditor.History.{
  QueryHistoryEntry, Storage, available, Json, IsJson, entries, HistoryOp, adds, use_query_history,
  run_history, load_history,
}
use openscale.SqlEditor.History.Laws.{queries_onto, written_onto, use_query_history_lem}

abbrev lists : Json ℕ (List (QueryHistoryEntry ℕ))
lists = record { parse = entries; stringify = λ es. es }

lists-IsJson : IsJson lists
lists-IsJson = record { parse-stringify = λ es. refl }

abbrev count : QueryHistoryEntry ℕ
count = record {
  sql = codes "select count(*) from gold_fares";
  ran_at = codes "2026-08-11T09:41:02Z";
  success = true;
  row_count = some 1;
}

abbrev typo : QueryHistoryEntry ℕ
typo = record count { sql = codes "selct 1"; success = false; row_count = none }

abbrev stored : Storage (List (QueryHistoryEntry ℕ))
stored = available (some (count ∷ []))

abbrev ops : List (HistoryOp ℕ × Bool)
ops = (adds typo, false) ∷ (adds count, true) ∷ []

newest_first : (use_query_history lists stored true ops).0 ≡ count ∷ typo ∷ count ∷ []
unfolding use_query_history run_history load_history
newest_first = refl

use_query_history_example :
    let (es, after) = use_query_history lists stored true ops in
    let earlier = load_history lists stored in
    (es ≡ take 50 (queries_onto earlier ops))
    × (load_history lists after ≡ take 50 (written_onto earlier earlier ops))
unfolding load_history
use_query_history_example = use_query_history_lem lists stored true ops lists-IsJson (omega arith)
