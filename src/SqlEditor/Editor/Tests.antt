-- ===== src/SqlEditor/Editor/Tests.antt =====
-- A table's name in place of a selected star.
use openscale.Base.{Text, codes, some, ◌≡◌, refl}
use openscale.SqlEditor.Editor.{insert_at_cursor, qualified_table_name}

abbrev sql : Text
sql = codes "select * from t"

inserted : insert_at_cursor (codes "fare") (some (7, 8)) sql ≡ (codes "select fare from t", some 11)
unfolding insert_at_cursor
inserted = refl

schema_is_named :
    qualified_table_name (codes "control_plane") (codes "job_runs") ≡ codes "control_plane.job_runs"
unfolding qualified_table_name
schema_is_named = refl
