-- ===== src/Appearance/Accents/Tests.antt =====
-- Violet, then the brand's own accent, which sets no property.
use openscale.Base.{codes, [], ◌∷◌, none, some, ◌≡◌, refl}
use openscale.Appearance.Accents.{
  AccentPreset, Style, resolve_accent_preset, apply_accent, apply_accents, accent_presets,
  previous_keys, set_tokens, clear_keys,
}
use openscale.Appearance.Accents.Laws.{accented, last_id, apply_accents-accented}

abbrev scaled : Style
scaled k = some (codes "1")

cleared :
    apply_accents (codes "violet-500" ∷ codes "ember-500" ∷ []) scaled (codes "--brand") ≡ none
unfolding apply_accents apply_accent resolve_accent_preset accent_presets previous_keys set_tokens
    clear_keys
cleared = refl

apply_accents-accented_example :
    (p : AccentPreset) × (resolve_accent_preset
        (last_id (codes "violet-500") (codes "red-700" ∷ []))
      ≡ some p)
    × (apply_accents (codes "violet-500" ∷ codes "red-700" ∷ []) scaled (codes "--brand-tint")
        ≡ accented p scaled (codes "--brand-tint"))
apply_accents-accented_example =
    apply_accents-accented (codes "violet-500") (codes "red-700" ∷ []) scaled (codes "--brand-tint")
