-- ===== src/Appearance/Accents/Laws.antt =====
-- What the root element's style holds after accents have been picked.
use openscale.Base.{
  Text, text_eq, text_eq_iff, List, [], ◌∷◌, none, some, Bool, true, false, not, ◌&&◌, any, all,
  find, if◌then◌else◌, is_some, ◌≡◌, ◌⊎◌, inl, inr, refl, ap, ◌∙◌, arith, Bool-cases,
}
use openscale.Appearance.Accents.{
  AccentPreset, Tokens, Style, accent_presets, default_accent_id, has_id, or_else,
  resolve_accent_preset, set_property, remove_property, lookup, set_tokens, previous_keys,
  clear_keys, apply_preset, apply_accent, apply_accents, ember_500,
}

abbrev pub is_key : Text → Bool
is_key k = any (λ key. text_eq key k) previous_keys

lookup-set_tokens :
    (ts : Tokens) (style : Style) (k : Text)
    → set_tokens ts style k ≡ or_else (lookup ts k) (style k)
unfolding set_tokens
lookup-set_tokens [] style k = refl
lookup-set_tokens ((key, value) ∷ ts) style k =
    lookup-set_tokens ts (set_property key value style) k ∙ ground arith

lookup-clear_keys :
    (keys : List Text) (ts : Tokens) (style : Style) (k : Text)
    → clear_keys keys ts style k
      ≡ (if any (λ key. text_eq key k) keys && not (is_some (lookup ts k)) then none else style k)
unfolding clear_keys
lookup-clear_keys [] ts style k = refl
lookup-clear_keys (key ∷ keys) ts style k =
    lookup-clear_keys keys ts (if is_some (lookup ts key) then style else remove_property key style)
      k
    ∙ elim (Bool-cases (text_eq key k)) [
      | inl same ↦ let e : key ≡ k = (text_eq_iff key k).0 same in ground arith
      | inr other ↦ ground arith
    ]

-- Every token of a preset is among the keys that the next accent clears.
abbrev pub covered : AccentPreset → Bool
covered p = all (λ t. is_key t.0) p.tokens

all-covered : all covered accent_presets ≡ true
unfolding accent_presets previous_keys
all-covered = refl

-- What `find` gives.
find-cases {ℓ} :
    {A : Type ℓ} (p q : A → Bool) (xs : List A)
    → all q xs ≡ true
    → ((find p xs ≡ none) × (any p xs ≡ false))
      ⊎ ((x : A) × (find p xs ≡ some x) × (p x ≡ true) × (q x ≡ true))
find-cases p q [] h = inl (refl, refl)
find-cases p q (x ∷ xs) h = elim (Bool-cases (p x)) [
  | inl hit ↦ inr (x, ground arith, hit, ground arith)
  | inr miss ↦ elim (find-cases p q xs (ground arith)) [
    | inl (a, b) ↦ inl (ground arith, ground arith)
    | inr (y, a, b, c) ↦ inr (y, ground arith, b, c)
  ]
]

-- The preset that an id resolves to.
pub record Resolves (id : Text) (p : AccentPreset) : Type 0 where
  pub resolved : resolve_accent_preset id ≡ some p
  pub clears : covered p ≡ true
  pub named : (p.id ≡ id) ⊎ ((p.id ≡ default_accent_id) × (any (has_id id) accent_presets ≡ false))

default_found :
    (p : AccentPreset) × (find (has_id default_accent_id) accent_presets ≡ some p)
    × (p.id ≡ default_accent_id)
    × (covered p ≡ true)
unfolding accent_presets previous_keys
default_found = (ember_500, refl, refl, refl)

-- Every id resolves to a preset, so that the assertion in the source is justified: to one with
-- that id, or, if no preset has it, to the default one. The tokens of the preset are all among the
-- keys that a later accent clears.
Resolves-of : (id : Text) → (p : AccentPreset) × Resolves id p
unfolding resolve_accent_preset
Resolves-of id = elim (find-cases (has_id id) covered accent_presets all-covered) [
  | inl (missing, unknown) ↦
      let (p, found, named, clears) = default_found in
      (
        p,
        record {
          resolved =
              ap (λ o. or_else o (find (has_id default_accent_id) accent_presets)) missing ∙ found;
          clears = clears;
          named = inr (named, unknown);
        },
      )
  | inr (p, found, same, clears) ↦ (
    p,
    record {
      resolved = ap (λ o. or_else o (find (has_id default_accent_id) accent_presets)) found;
      clears = clears;
      named = inl ((text_eq_iff p.id id).0 same);
    },
  )
]

lookup-other :
    (ts : Tokens) (k : Text)
    → all (λ t. is_key t.0) ts ≡ true
    → is_key k ≡ false
    → lookup ts k ≡ none
lookup-other [] k h g = refl
lookup-other ((key, value) ∷ ts) k h g = elim (Bool-cases (text_eq key k)) [
  | inl same ↦ let e : key ≡ k = (text_eq_iff key k).0 same in absurd (ground arith)
  | inr other ↦ ground (arith, lookup-other ts k)
]

-- The style that a preset leaves: its tokens on the accent's keys, nothing else changed.
abbrev pub accented : AccentPreset → Style → Style
accented p style k = if is_key k then lookup p.tokens k else style k

apply_preset-accented :
    (p : AccentPreset) (style : Style) (k : Text)
    → covered p ≡ true
    → apply_preset (some p) style k ≡ accented p style k
apply_preset-accented p style k h =
    lookup-clear_keys previous_keys p.tokens (set_tokens p.tokens style) k
    ∙ (ap (λ o. if is_key k && not (is_some (lookup p.tokens k)) then none else o)
          (lookup-set_tokens p.tokens style k)
        ∙ elim (Bool-cases (is_key k)) [
          | inl key ↦ ground arith
          | inr other ↦ let nothing = lookup-other p.tokens k h other in ground arith
        ])

apply_accent-accented :
    (id : Text) (p : AccentPreset) (style : Style) (k : Text)
    → Resolves id p
    → apply_accent id style k ≡ accented p style k
unfolding apply_accent
apply_accent-accented id p style k r = rw r.resolved (apply_preset-accented p style k r.clears)

abbrev pub last_id : Text → List Text → Text
last_id id [] = id
last_id id (next ∷ ids) = last_id next ids

-- After any accents have been picked, whatever the style was before, the root element carries
-- exactly the tokens of the last accent's preset on the accent's properties, and every other
-- property as it was before the first.
pub apply_accents-accented :
    (id : Text) (ids : List Text) (style : Style) (k : Text)
    → (p : AccentPreset) × (resolve_accent_preset (last_id id ids) ≡ some p)
      × (apply_accents (id ∷ ids) style k ≡ accented p style k)
unfolding apply_accents
apply_accents-accented id [] style k =
    let (p, r) = Resolves-of id in (p, r.resolved, apply_accent-accented id p style k r)
apply_accents-accented id (next ∷ ids) style k =
    let (first, r) = Resolves-of id in
    let (p, resolved, shown) = apply_accents-accented next ids (apply_accent id style) k in
    let before = apply_accent-accented id first style k r in
    (
      p,
      resolved,
      shown ∙ elim (Bool-cases (is_key k)) [ inl key ↦ ground arith | inr other ↦ ground arith ],
    )
