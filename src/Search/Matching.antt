-- ===== src/Search/Matching.antt =====
-- frontend/src/shared/search/rules.ts: the case-insensitive substring match. `to_lower` is the
-- host's `toLowerCase`, a table of Unicode.
pub mod Laws
use openscale.Base.{
  ℕ, Text, List, [], ◌∷◌, Option, none, some, Bool, true, false, ◌||◌, ◌&&◌, any, leb, ◌==◌,
  if◌then◌else◌, reverse,
}
use openscale.Pipelines.Runs.{is_present}

-- The white space that `trim` strips: tab to carriage return, and the code units of the spaces
-- and line ends of Unicode.
abbrev pub is_space : ℕ → Bool
is_space c =
    (leb 9 c && leb c 13)
    || (c == 32
        || (c == 160
            || (c == 5760
                || ((leb 8192 c && leb c 8202)
                    || (c == 8232
                        || (c == 8233
                            || (c == 8239 || (c == 8287 || (c == 12288 || c == 65279)))))))))

unfoldable pub trim_start : Text → Text
trim_start [] = []
trim_start (c ∷ cs) = let rest = trim_start cs in if is_space c then rest else c ∷ cs

-- `s.trim()`
unfoldable pub trim : Text → Text
trim s = reverse (trim_start (reverse (trim_start s)))

abbrev pub starts_with : Text → Text → Bool
starts_with [] s = true
starts_with (q ∷ qs) [] = false
starts_with (q ∷ qs) (c ∷ cs) = q == c && starts_with qs cs

-- `s.includes(q)`
unfoldable pub includes : Text → Text → Bool
includes [] q = starts_with q []
includes (c ∷ cs) q = starts_with q (c ∷ cs) || includes cs q

abbrev pub is_empty : Text → Bool
is_empty [] = true
is_empty (c ∷ cs) = false

abbrev pub lowered : (Text → Text) → Option Text → Text
lowered to_lower none = []
lowered to_lower (some f) = to_lower f

unfoldable pub matches_query : (Text → Text) → Text → List (Option Text) → Bool
matches_query to_lower query fields =
    let q = to_lower (trim query) in
    if is_empty q then false else any (λ f. is_present f && includes (lowered to_lower f) q) fields
