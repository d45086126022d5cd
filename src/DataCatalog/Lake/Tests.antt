-- ===== src/DataCatalog/Lake/Tests.antt =====
-- The mock's layers: their numbers are those of their objects.
use openscale.Base.{
  ℕ, ◌+◌, ◌==◌, ◌&&◌, codes, List, [], ◌∷◌, some, Bool, true, false, all, length, ◌≡◌, refl,
}
use openscale.Base.Decimal.{show}
use openscale.DataCatalog.Bytes.{format_bytes}
use openscale.DataCatalog.Lake.{
  LakeObject, LakeLayer, toggle_layer, layer_row, layers, lake_browser_panel, mock_lake_catalog,
  layer_of,
}

sum_of_sizes : List LakeObject → ℕ
sum_of_sizes [] = 0
sum_of_sizes (o ∷ os) = o.size_bytes + sum_of_sizes os

agrees : LakeLayer → Bool
agrees l = (l.object_count == length l.objects) && (l.total_bytes == sum_of_sizes l.objects)

mock_agrees : all agrees mock_lake_catalog.layers ≡ true
unfolding mock_lake_catalog agrees sum_of_sizes
mock_agrees = refl

shows_the_mock :
    lake_browser_panel false false (some mock_lake_catalog) ≡ layers mock_lake_catalog.layers
unfolding lake_browser_panel mock_lake_catalog
shows_the_mock = refl

collapsed :
    layer_row (λ t. t) (toggle_layer true) (layer_of (codes "bronze") (codes "bronze/") 1 2048 [])
    ≡ codes "▸" ∷ codes "bronze" ∷ codes "1 object · 2.00 KB" ∷ codes "bronze/" ∷ []
unfolding layer_row toggle_layer format_bytes show
collapsed = refl
