-- ===== src/Search/Results.antt =====
-- frontend/src/shared/search/entities.ts and useGlobalSearch.ts: the results of a query by category.
mod Laws
mod Tests
use openscale.Base.{
  ℕ, ◌+◌, Text, codes, List, [], ◌∷◌, ◌++◌, map, Option, none, some, Bool, true, false, ◌&&◌, not,
  ◌==◌, if◌then◌else◌, length, take, filter,
}
use openscale.Base.Decimal.{show}
use openscale.Pipelines.Runs.{JobRun, JobState, state_label, state_text}
use openscale.Search.Catalogs.{NavEntry, nav_entries, JobDefinition, job_catalog}
use openscale.Search.Matching.{trim, is_empty, matches_query}

pub data SearchCategory : Type 0 where
  screen job table run : SearchCategory

-- What the receiving screen reads.
pub data NavState : Type 0 where
  open_job_type : Text → NavState
  prefill_sql : Text → NavState
  selected_run_id : Text → NavState

pub record SearchResultItem : Type 0 where
  pub id : Text
  pub category : SearchCategory
  pub title : Text
  pub subtitle : Option Text
  pub path : Text
  pub nav_state : Option NavState

pub record SearchResults : Type 0 where
  pub screens : List SearchResultItem
  pub jobs : List SearchResultItem
  pub tables : List SearchResultItem
  pub runs : List SearchResultItem

abbrev pub empty_results : SearchResults
empty_results = record { screens = []; jobs = []; tables = []; runs = [] }

-- frontend/src/domains/sql-editor/domain/entities.ts, with the columns' names and types.
pub record CatalogTable : Type 0 where
  pub schema : Text
  pub table_name : Text
  pub columns : List (Text × Text)

abbrev pub max_results_per_category : ℕ
max_results_per_category = 5

-- frontend/src/domains/data-catalog/domain/rules.ts
unfoldable pub quoted_table_ref : Text → Text → Text
quoted_table_ref schema table_name =
    codes "\"" ++ (schema ++ (codes "\".\"" ++ (table_name ++ codes "\"")))

-- The host's lower case of a text and its text of a time.
pub record Locale : Type 0 where
  pub to_lower : Text → Text
  pub format_run_time : Text → Text

module _ (locale : Locale) (trimmed : Text) where
  abbrev pub screen_matches : NavEntry → Bool
  screen_matches e = matches_query locale.to_lower trimmed (some e.label ∷ some e.subtitle ∷ [])

  abbrev pub job_matches : JobDefinition → Bool
  job_matches j =
      matches_query locale.to_lower trimmed
        (some j.label ∷ some j.job_type ∷ some j.stage ∷ some j.description ∷ [])

  abbrev pub table_matches : CatalogTable → Bool
  table_matches t = matches_query locale.to_lower trimmed (some t.schema ∷ some t.table_name ∷ [])

  abbrev pub run_matches : JobRun → Bool
  run_matches r =
      matches_query locale.to_lower trimmed
        (some r.job_type ∷ some r.id ∷ some (state_text r.state) ∷ [])

abbrev pub screen_item : NavEntry → SearchResultItem
screen_item e = record {
  id = codes "screen:" ++ e.path;
  category = screen;
  title = e.label;
  subtitle = some e.subtitle;
  path = e.path;
  nav_state = none;
}

abbrev pub job_item : JobDefinition → SearchResultItem
job_item j = record {
  id = codes "job:" ++ j.job_type;
  category = job;
  title = j.label;
  subtitle = some j.description;
  path = codes "/pipelines";
  nav_state = some (open_job_type j.job_type);
}

abbrev pub columns_text : ℕ → Text
columns_text n = show n ++ (codes " column" ++ (if n == 1 then [] else codes "s"))

abbrev pub table_item : CatalogTable → SearchResultItem
table_item t = record {
  id = codes "table:" ++ (t.schema ++ (codes "." ++ t.table_name));
  category = table;
  title = t.schema ++ (codes "." ++ t.table_name);
  subtitle = some (columns_text (length t.columns));
  path = codes "/sql-editor";
  nav_state = some (
      prefill_sql
        (codes "select * from " ++ (quoted_table_ref t.schema t.table_name ++ codes " limit 20;")));
}

abbrev pub run_item : Locale → JobRun → SearchResultItem
run_item locale r = record {
  id = codes "run:" ++ r.id;
  category = run;
  title = r.job_type ++ (codes " · " ++ state_label r.state);
  subtitle = some (locale.format_run_time r.submitted_at);
  path = codes "/pipelines";
  nav_state = some (selected_run_id r.id);
}

-- `xs.filter(matches).slice(0, MAX_RESULTS_PER_CATEGORY).map(item)`
abbrev pub capped {ℓ} :
    {A : Type ℓ} → (A → Bool) → (A → SearchResultItem) → List A → List SearchResultItem
capped matches item xs = map item (take max_results_per_category (filter matches xs))

-- `data ?? []`
abbrev pub or_empty {ℓ} : {A : Type ℓ} → Option (List A) → List A
or_empty none = []
or_empty (some xs) = xs

-- The results; the catalog and the runs are what their queries have brought so far.
unfoldable pub use_global_search :
    Locale → Text → Bool → Option (List CatalogTable) → Option (List JobRun) → SearchResults
use_global_search locale query enabled catalog runs =
    let trimmed = trim query in
    if enabled && not (is_empty trimmed)
    then record {
      screens = capped (screen_matches locale trimmed) screen_item nav_entries;
      jobs = capped (job_matches locale trimmed) job_item job_catalog;
      tables = capped (table_matches locale trimmed) table_item (or_empty catalog);
      runs = capped (run_matches locale trimmed) (run_item locale) (or_empty runs);
    }
    else empty_results

-- The list that the arrow keys walk: `CATEGORY_ORDER.flatMap(cat => results[cat])`.
unfoldable pub flat_results : SearchResults → List SearchResultItem
flat_results r = r.screens ++ (r.jobs ++ (r.tables ++ r.runs))
