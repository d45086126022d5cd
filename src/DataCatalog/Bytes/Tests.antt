-- ===== src/DataCatalog/Bytes/Tests.antt =====
-- Sizes of the lake's objects.
use openscale.Base.{some, codes, ◌≡◌, refl, arith}
use openscale.Base.Decimal.{show}
use openscale.DataCatalog.Bytes.{format_bytes}
use openscale.DataCatalog.Bytes.Reader.{Size, read_size, IsRounded, read_size-format_bytes}

a_month : format_bytes 29_100_000 ≡ codes "27.8 MB"
unfolding format_bytes show
a_month = refl

a_small_file : format_bytes 1_536 ≡ codes "1.50 KB"
unfolding format_bytes show
a_small_file = refl

bytes_only : format_bytes 512 ≡ codes "512 B"
unfolding format_bytes show
bytes_only = refl

read_size-format_bytes_example :
    (size : Size) × (read_size (format_bytes 18_400) ≡ some size) × IsRounded 18_400 size
read_size-format_bytes_example = read_size-format_bytes 18_400 (omega arith)
