-- ===== src/Search/Results/Tests.antt =====
-- Searches with texts in lower case already, so that the identity stands for the host's lower case.
use openscale.Base.{Text, codes, List, [], ◌∷◌, map, none, some, true, false, ◌≡◌, ◌⊎◌, ◌↔◌, refl}
use openscale.Pipelines.Runs.{JobRun, failed}
use openscale.Search.Catalogs.{nav_entries, job_catalog}
use openscale.Search.Matching.{matches_query, trim, trim_start, includes}
use openscale.Search.Matching.Laws.{Matches, matches_query_iff}
use openscale.Search.Results.{
  SearchResultItem, Locale, CatalogTable, use_global_search, flat_results, empty_results,
}
use openscale.Search.Results.Laws.{IsSearch, use_global_search-IsSearch}

abbrev plain : Locale
plain = record { to_lower = λ t. t; format_run_time = λ t. t }

abbrev failed_run : JobRun
failed_run = record {
  id = codes "r7";
  job_type = codes "gold";
  params = [];
  state = failed;
  submitted_at = codes "2026-08-11T09:41:02Z";
  started_at = none;
  finished_at = none;
  error = some (codes "no data");
  rows_processed = none;
}

abbrev fares : CatalogTable
fares = record {
  schema = codes "public";
  table_name = codes "gold_fares";
  columns = (codes "fare", codes "numeric") ∷ [];
}

abbrev gold_titles : List Text
gold_titles =
    map (λ (i : SearchResultItem). i.id)
      (flat_results (
        use_global_search plain (codes "  gold ") true (some (fares ∷ []))
          (some (failed_run ∷ []))))

gold_found : gold_titles ≡ codes "job:gold" ∷ codes "table:public.gold_fares" ∷ codes "run:r7" ∷ []
unfolding use_global_search flat_results nav_entries job_catalog matches_query trim trim_start
    includes
gold_found = refl

use_global_search-IsSearch_example :
    let r =
      use_global_search plain (codes "gold") true (some (fares ∷ [])) (some (failed_run ∷ [])) in
    (((true ≡ false) ⊎ (trim (codes "gold") ≡ [])) × (r ≡ empty_results))
    ⊎ IsSearch plain (trim (codes "gold")) (fares ∷ []) (failed_run ∷ []) r
use_global_search-IsSearch_example =
    use_global_search-IsSearch plain (codes "gold") true (some (fares ∷ []))
      (some (failed_run ∷ []))

matches_query_iff_example :
    (matches_query (λ t. t) (codes " old") (none ∷ some (codes "gold") ∷ []) ≡ true)
    ↔ Matches (λ t. t) (codes " old") (none ∷ some (codes "gold") ∷ [])
matches_query_iff_example =
    matches_query_iff (λ t. t) (codes " old") (none ∷ some (codes "gold") ∷ [])
