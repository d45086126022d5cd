-- ===== src/DataCatalog/Bytes.antt =====
-- `formatBytes` of frontend/src/domains/data-catalog/domain/rules.ts, for whole numbers of bytes below
-- 2^53, where the quotient by a power of 1024 is exact and `toFixed` rounds half up; the quotient of
-- the logarithms is taken as exact too.
mod Laws
mod Reader
mod Tests
use openscale.Base.{
  ℕ, zero, suc, ◌+◌, ◌-◌, ◌*◌, ◌/◌, ◌%◌, ◌==◌, Text, codes, List, [], ◌∷◌, ◌++◌, ltb, length,
  if◌then◌else◌,
}
use openscale.Base.Decimal.{show}
use openscale.Charts.Axis.{round_div}

-- `UNITS[exponent]` for an exponent up to 4.
unfoldable pub unit_text : ℕ → Text
unit_text zero = codes "B"
unit_text (suc zero) = codes "KB"
unit_text (suc (suc zero)) = codes "MB"
unit_text (suc (suc (suc zero))) = codes "GB"
unit_text (suc (suc (suc (suc e)))) = codes "TB"

-- `Math.min(Math.floor(Math.log(bytes) / Math.log(1024)), most)`
unfoldable pub exponent : ℕ → ℕ → ℕ
exponent zero bytes = 0
exponent (suc most) bytes =
    let rest = suc (exponent most (bytes / 1024)) in if ltb bytes 1024 then 0 else rest

-- `1024 ** e`
unfoldable pub kib : ℕ → ℕ
kib zero = 1
kib (suc e) = 1024 * kib e

-- `decimals`: none for bytes, two for a value below 10, else one.
unfoldable pub decimals : ℕ → ℕ → ℕ
unfolding kib
decimals zero bytes = 0
decimals (suc e) bytes = if ltb bytes (10 * kib (suc e)) then 2 else 1

abbrev pub ten_to : ℕ → ℕ
ten_to zero = 1
ten_to (suc d) = 10 * ten_to d

abbrev pub zeros : ℕ → Text
zeros zero = []
zeros (suc n) = 48 ∷ zeros n

abbrev pub padded : ℕ → Text → Text
padded d s = zeros (d - length s) ++ s

-- `n` tenths, hundredths, …, written with `d` decimals.
unfoldable pub fixed_text : ℕ → ℕ → Text
fixed_text zero n = show n
fixed_text (suc d) n =
    show (n / ten_to (suc d)) ++ (codes "." ++ padded (suc d) (show (n % ten_to (suc d))))

-- The number that `value.toFixed(decimals)` shows, in units of its last decimal.
unfoldable pub shown_number : ℕ → ℕ
unfolding exponent kib decimals
shown_number bytes =
    let e = exponent 4 bytes in round_div (bytes * ten_to (decimals e bytes)) (kib e)

unfoldable pub format_bytes : ℕ → Text
unfolding shown_number unit_text fixed_text exponent decimals
format_bytes zero = codes "0 B"
format_bytes (suc b) =
    let e = exponent 4 (suc b) in
    fixed_text (decimals e (suc b)) (shown_number (suc b)) ++ (codes " " ++ unit_text e)
