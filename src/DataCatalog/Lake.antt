-- ===== src/DataCatalog/Lake.antt =====
-- frontend/src/domains/data-catalog: LakeObject, LakeLayer and LakeCatalog of domain/entities.ts, the
-- texts of ui/LakeBrowserPanel.tsx, and the catalog of infrastructure/mockLakeGateway.ts.
mod Tests
use openscale.Base.{
  ℕ, ◌+◌, ◌==◌, ◌&&◌, Text, codes, List, [], ◌∷◌, ◌++◌, Option, none, some, Bool, true, false, not,
  all, length, if◌then◌else◌,
}
use openscale.Base.Decimal.{show}
use openscale.DataCatalog.Bytes.{format_bytes}

pub record LakeObject : Type 0 where
  pub key : Text
  pub size_bytes : ℕ
  pub last_modified : Text

pub record LakeLayer : Type 0 where
  pub name : Text
  pub prefix : Text
  pub objects : List LakeObject
  pub object_count : ℕ
  pub total_bytes : ℕ

pub record LakeCatalog : Type 0 where
  pub layers : List LakeLayer
  pub reachable : Bool

-- `setExpanded((v) => !v)`
unfoldable pub toggle_layer : Bool → Bool
toggle_layer expanded = not expanded

-- `formatted` is `formatLastModified`.
module _ (formatted : Text → Text) where
  abbrev pub object_words : LakeObject → List Text
  object_words o =
      o.key ∷ (format_bytes o.size_bytes ++ (codes " · " ++ formatted o.last_modified)) ∷ []

  abbrev pub objects_words : List LakeObject → List Text
  objects_words [] = []
  objects_words (o ∷ os) = object_words o ++ objects_words os

  abbrev pub expanded_words : Bool → List LakeObject → List Text
  expanded_words false objects = []
  expanded_words true [] =
      codes "No objects yet -- run the matching job from Pipelines to populate this layer." ∷ []
  expanded_words true (o ∷ os) = objects_words (o ∷ os)

  -- The texts of `LayerRow`, the mark of the button first.
  unfoldable pub layer_row : Bool → LakeLayer → List Text
  layer_row expanded layer =
      (if expanded then codes "▾" else codes "▸")
      ∷ layer.name
      ∷ (show layer.object_count
          ++ (codes " object"
              ++ ((if layer.object_count == 1 then [] else codes "s")
                  ++ (codes " · " ++ format_bytes layer.total_bytes))))
      ∷ layer.prefix
      ∷ expanded_words expanded layer.objects

-- What the panel shows under its heading: a note, or the layers, whose rows keep their own state.
pub data LakeView : Type 0 where
  note : Text → LakeView
  layers : List LakeLayer → LakeView

abbrev pub reached_view : LakeCatalog → LakeView
reached_view catalog =
    if all (λ (l : LakeLayer). l.object_count == 0) catalog.layers
    then note
        (codes "The lake is empty -- run jobs from Pipelines to populate Bronze, Silver, and Gold.")
    else layers catalog.layers

-- The arguments are `isLoading`, `isError` and `data`.
unfoldable pub lake_browser_panel : Bool → Bool → Option LakeCatalog → LakeView
lake_browser_panel true is_error result = note (codes "Loading lake inventory…")
lake_browser_panel false true result =
    note (codes "Failed to load lake inventory. Is the control-plane running?")
lake_browser_panel false false none =
    note (codes "Failed to load lake inventory. Is the control-plane running?")
lake_browser_panel false false (some catalog) =
    if catalog.reachable
    then reached_view catalog
    else note (
        codes
          "MinIO unreachable -- the object store isn't responding. Check the openscale-minio container.")

abbrev pub object_of : Text → ℕ → Text → LakeObject
object_of key size modified = record { key = key; size_bytes = size; last_modified = modified }

abbrev pub layer_of : Text → Text → ℕ → ℕ → List LakeObject → LakeLayer
layer_of name prefix count total objects = record {
  name = name;
  prefix = prefix;
  objects = objects;
  object_count = count;
  total_bytes = total;
}

-- `MOCK_LAKE_CATALOG`
unfoldable pub mock_lake_catalog : LakeCatalog
mock_lake_catalog = record {
  reachable = true;
  layers =
      layer_of (codes "bronze") (codes "bronze/yellow_taxi/") 2 58_200_000 (
        object_of (codes "bronze/yellow_taxi/2024-01.parquet") 29_100_000
          (codes "2024-02-01T03:12:00Z")
        ∷ object_of (codes "bronze/yellow_taxi/2024-02.parquet") 29_100_000
            (codes "2024-03-01T03:12:00Z")
        ∷ [])
      ∷ layer_of (codes "silver") (codes "silver/trips/") 2 24_500_000 (
          object_of (codes "silver/trips/silver_trips_2024_01.parquet") 12_250_000
            (codes "2024-02-01T04:05:00Z")
          ∷ object_of (codes "silver/trips/silver_trips_2024_02.parquet") 12_250_000
              (codes "2024-03-01T04:05:00Z")
          ∷ [])
      ∷ layer_of (codes "silver-quarantine") (codes "silver/quarantine/") 1 18_400 (
          object_of (codes "silver/quarantine/negative_fares_2024_01.parquet") 18_400
            (codes "2024-02-01T04:05:00Z")
          ∷ [])
      ∷ layer_of (codes "gold-daily-revenue") (codes "gold/daily_revenue/") 1 41_200 (
          object_of (codes "gold/daily_revenue/part-00000-abc123.snappy.parquet") 41_200
            (codes "2024-03-01T05:10:00Z")
          ∷ [])
      ∷ layer_of (codes "gold-hourly-demand") (codes "gold/hourly_demand/") 1 33_700 (
          object_of (codes "gold/hourly_demand/part-00000-def456.snappy.parquet") 33_700
            (codes "2024-03-01T05:11:00Z")
          ∷ [])
      ∷ layer_of (codes "gold-zone-stats") (codes "gold/zone_stats/") 1 27_900 (
          object_of (codes "gold/zone_stats/part-00000-ghi789.snappy.parquet") 27_900
            (codes "2024-03-01T05:12:00Z")
          ∷ [])
      ∷ layer_of (codes "gold-congestion-metrics") (codes "gold/congestion_metrics/") 1 22_100 (
          object_of (codes "gold/congestion_metrics/part-00000-jkl012.snappy.parquet") 22_100
            (codes "2024-03-01T05:13:00Z")
          ∷ [])
      ∷ [];
}
