-- ===== src/Search/Matching/Laws.antt =====
-- What the match finds, in words of the texts.
use openscale.Base.{
  ℕ, Text, List, [], ◌∷◌, ◌++◌, Option, none, some, Bool, true, false, ◌&&◌, any, ◌≡◌, ◌≢◌, ◌↔◌,
  inl, inr, refl, ap, ap₂, ◌∙◌, arith, Bool-cases, get_elem?, zero, suc,
}
use openscale.Pipelines.Runs.{is_present}
use openscale.Search.Matching.{trim, starts_with, includes, is_empty, lowered, matches_query}

-- The text holds the part somewhere.
pub record Holds (s part : Text) : Type 0 where
  pub before : Text
  pub after : Text
  pub whole : s ≡ before ++ (part ++ after)

starts_with_append : (q after : Text) → starts_with q (q ++ after) ≡ true
starts_with_append [] after = refl
starts_with_append (c ∷ q) after = ground (arith, starts_with_append q after)

starts_with_sound : (q s : Text) → starts_with q s ≡ true → (after : Text) × (s ≡ q ++ after)
starts_with_sound [] s h = (s, refl)
starts_with_sound (c ∷ q) [] h = cc
starts_with_sound (c ∷ q) (d ∷ s) h =
    let (after, e) = starts_with_sound q s (ground arith) in
    let same : d ≡ c = ground arith in (after, ap₂ ◌∷◌ same e)

includes_sound : (s q : Text) → includes s q ≡ true → Holds s q
unfolding includes
includes_sound [] q h =
    let (after, e) = starts_with_sound q [] h in record { before = []; after = after; whole = e }
includes_sound (c ∷ cs) q h = elim (Bool-cases (starts_with q (c ∷ cs))) [
  | inl here ↦
      let (after, e) = starts_with_sound q (c ∷ cs) here in
      record { before = []; after = after; whole = e }
  | inr later ↦
      let found = includes_sound cs q (ground arith) in
      record { before = c ∷ found.before; after = found.after; whole = ap (◌∷◌ c) found.whole }
]

includes_at_start : (s q : Text) → starts_with q s ≡ true → includes s q ≡ true
unfolding includes
includes_at_start [] q h = h
includes_at_start (c ∷ cs) q h = ground arith

includes_complete : (before q after : Text) → includes (before ++ (q ++ after)) q ≡ true
unfolding includes
includes_complete [] q after = includes_at_start (q ++ after) q (starts_with_append q after)
includes_complete (c ∷ cs) q after = ground (arith, includes_complete cs q after)

-- One of the fields is given and not empty, and its lower-case text holds the query's, which is
-- not empty after trimming.
pub record Matches (to_lower : Text → Text) (query : Text) (fields : List (Option Text))
    : Type 0 where
  pub index : ℕ
  pub field : Text
  pub listed : get_elem? fields index ≡ some (some field)
  pub field_given : field ≢ []
  pub query_given : to_lower (trim query) ≢ []
  pub holds : Holds (to_lower field) (to_lower (trim query))

abbrev hit : (Text → Text) → Text → Option Text → Bool
hit to_lower q f = is_present f && includes (lowered to_lower f) q

hit_sound :
    (to_lower : Text → Text) (q : Text) (f : Option Text)
    → hit to_lower q f ≡ true
    → (t : Text) × (f ≡ some t) × (t ≢ []) × Holds (to_lower t) q
hit_sound to_lower q none h = cc
hit_sound to_lower q (some []) h = cc
hit_sound to_lower q (some (c ∷ cs)) h =
    (c ∷ cs, refl, λ e. cc, includes_sound (to_lower (c ∷ cs)) q h)

any_sound {ℓ} :
    {A : Type ℓ} (p : A → Bool) (xs : List A)
    → any p xs ≡ true
    → (i : ℕ) × (x : A) × (get_elem? xs i ≡ some x) × (p x ≡ true)
any_sound p [] h = cc
any_sound p (x ∷ xs) h = elim (Bool-cases (p x)) [
  | inl here ↦ (zero, x, refl, here)
  | inr later ↦ let (i, y, at, found) = any_sound p xs (ground arith) in (suc i, y, at, found)
]

any_complete {ℓ} :
    {A : Type ℓ} (p : A → Bool) (xs : List A) (i : ℕ) (x : A)
    → get_elem? xs i ≡ some x
    → p x ≡ true
    → any p xs ≡ true
any_complete p [] i x at h = cc
any_complete p (y ∷ ys) zero x at h = let same : some y ≡ some x = at in ground arith
any_complete p (y ∷ ys) (suc i) x at h = ground (arith, any_complete p ys i x at h)

given_of_not_empty : (q : Text) → is_empty q ≡ false → q ≢ []
given_of_not_empty [] h = cc
given_of_not_empty (c ∷ cs) h = λ e. cc

not_empty_of_given : (q : Text) → q ≢ [] → is_empty q ≡ false
not_empty_of_given [] h = absurd (h refl)
not_empty_of_given (c ∷ cs) h = refl

matches_query_sound :
    (to_lower : Text → Text) (query : Text) (fields : List (Option Text))
    → matches_query to_lower query fields ≡ true
    → Matches to_lower query fields
unfolding matches_query
matches_query_sound to_lower query fields h = elim (Bool-cases (is_empty (to_lower (trim query)))) [
  | inl none_left ↦ absurd (ground arith)
  | inr some_left ↦
      let q = to_lower (trim query) in
      let (i, f, at, found) = any_sound (hit to_lower q) fields (ground arith) in
      let (t, same, given, holds) = hit_sound to_lower q f found in
      record {
        index = i;
        field = t;
        listed = at ∙ ap some same;
        field_given = given;
        query_given = given_of_not_empty q some_left;
        holds = holds;
      }
]

hit_complete :
    (to_lower : Text → Text) (q t : Text)
    → t ≢ []
    → Holds (to_lower t) q
    → hit to_lower q (some t) ≡ true
hit_complete to_lower q [] h w = absurd (h refl)
hit_complete to_lower q (c ∷ cs) h w = rw w.whole (includes_complete w.before q w.after)

matches_query_complete :
    (to_lower : Text → Text) (query : Text) (fields : List (Option Text))
    → Matches to_lower query fields
    → matches_query to_lower query fields ≡ true
unfolding matches_query
matches_query_complete to_lower query fields w =
    let q = to_lower (trim query) in
    rw (not_empty_of_given q w.query_given) (
      any_complete (hit to_lower q) fields w.index (some w.field) w.listed
        (hit_complete to_lower q w.field w.field_given w.holds))

-- A query matches exactly if, trimmed and lowered, it is not empty and lies within the lowered text
-- of one of the fields that are given and not empty.
pub matches_query_iff :
    (to_lower : Text → Text) (query : Text) (fields : List (Option Text))
    → (matches_query to_lower query fields ≡ true) ↔ Matches to_lower query fields
matches_query_iff to_lower query fields =
    (matches_query_sound to_lower query fields, matches_query_complete to_lower query fields)
