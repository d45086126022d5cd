-- ===== src/Appearance/Accents.antt =====
-- frontend/src/app/accent-presets.ts and the effect of app/AppShellContainer.tsx that writes an accent
-- to the style of the root element.
mod Laws
mod Tests
use openscale.Base.{
  Text, codes, text_eq, List, [], ◌∷◌, Option, none, some, Bool, true, false, any, find,
  if◌then◌else◌, is_some,
}

-- The entries of an object literal, in order. A key that stands twice would have its last value.
abbrev pub Tokens : Type 0
Tokens = List (Text × Text)

pub record AccentPreset : Type 0 where
  pub id : Text
  pub name : Text
  pub swatch : Text
  pub tokens : Tokens

abbrev pub default_accent_id : Text
default_accent_id = codes "ember-500"

abbrev pub hue : Text → Text → Text → Text → Text → Text → AccentPreset
hue id name base hover press tint = record {
  id = id;
  name = name;
  swatch = base;
  tokens =
      (codes "--brand", base)
      ∷ (codes "--brand-hover", hover)
      ∷ (codes "--brand-press", press)
      ∷ (codes "--brand-tint", tint)
      ∷ (codes "--chart-primary", base)
      ∷ (codes "--ember-400", tint)
      ∷ (codes "--ember-500", base)
      ∷ (codes "--ember-600", hover)
      ∷ (codes "--ember-700", press)
      ∷ (codes "--text-link", hover)
      ∷ (codes "--text-link-hover", press)
      ∷ [];
}

abbrev ember_400 : AccentPreset
ember_400 = record {
  id = codes "ember-400";
  name = codes "Ember 400";
  swatch = codes "#F4784F";
  tokens =
      (codes "--brand", codes "var(--ember-400)")
      ∷ (codes "--brand-hover", codes "var(--ember-500)")
      ∷ (codes "--brand-press", codes "var(--ember-600)")
      ∷ (codes "--chart-primary", codes "var(--ember-400)")
      ∷ (codes "--ember-500", codes "#F4784F")
      ∷ (codes "--ember-400", codes "#F79C7C")
      ∷ (codes "--text-link", codes "var(--ember-500)")
      ∷ [];
}

abbrev pub ember_500 : AccentPreset
ember_500 = record {
  id = codes "ember-500";
  name = codes "Ember 500";
  swatch = codes "#EF5E2C";
  tokens = [];
}

abbrev ember_600 : AccentPreset
ember_600 = record {
  id = codes "ember-600";
  name = codes "Ember 600";
  swatch = codes "#D64C1E";
  tokens =
      (codes "--brand", codes "var(--ember-600)")
      ∷ (codes "--brand-hover", codes "var(--ember-700)")
      ∷ (codes "--chart-primary", codes "var(--ember-600)")
      ∷ (codes "--ember-500", codes "#D64C1E")
      ∷ (codes "--ember-400", codes "#EF5E2C")
      ∷ (codes "--text-link", codes "var(--ember-700)")
      ∷ [];
}

abbrev ember_700 : AccentPreset
ember_700 = record {
  id = codes "ember-700";
  name = codes "Ember 700";
  swatch = codes "#AF3C16";
  tokens =
      (codes "--brand", codes "var(--ember-700)")
      ∷ (codes "--brand-hover", codes "#8E2F11")
      ∷ (codes "--chart-primary", codes "var(--ember-700)")
      ∷ (codes "--ember-500", codes "#AF3C16")
      ∷ (codes "--ember-400", codes "#D64C1E")
      ∷ (codes "--text-link", codes "var(--ember-700)")
      ∷ [];
}

abbrev red_500 : AccentPreset
red_500 =
    hue (codes "red-500") (codes "Red 500") (codes "#E03131") (codes "#C92A2A") (codes "#A51E1E")
      (codes "#FF8787")

abbrev red_700 : AccentPreset
red_700 =
    hue (codes "red-700") (codes "Red 700") (codes "#A51E1E") (codes "#8A1919") (codes "#701414")
      (codes "#E03131")

abbrev green_500 : AccentPreset
green_500 =
    hue (codes "green-500") (codes "Green 500") (codes "#2F9E44") (codes "#2B8A3E")
      (codes "#237032") (codes "#69DB7C")

abbrev green_700 : AccentPreset
green_700 =
    hue (codes "green-700") (codes "Green 700") (codes "#1F6F32") (codes "#1A5C2A")
      (codes "#154A22") (codes "#2F9E44")

abbrev blue_500 : AccentPreset
blue_500 =
    hue (codes "blue-500") (codes "Blue 500") (codes "#1C7ED6") (codes "#1971C2") (codes "#155FA0")
      (codes "#74C0FC")

abbrev blue_700 : AccentPreset
blue_700 =
    hue (codes "blue-700") (codes "Blue 700") (codes "#14539E") (codes "#114685") (codes "#0E386B")
      (codes "#1C7ED6")

abbrev teal_500 : AccentPreset
teal_500 =
    hue (codes "teal-500") (codes "Teal 500") (codes "#0CA678") (codes "#099268") (codes "#077F5A")
      (codes "#63E6BE")

abbrev violet_500 : AccentPreset
violet_500 =
    hue (codes "violet-500") (codes "Violet 500") (codes "#7048E8") (codes "#6741D9")
      (codes "#5935C4") (codes "#B197FC")

unfoldable pub accent_presets : List AccentPreset
accent_presets =
    ember_400 ∷ ember_500 ∷ ember_600 ∷ ember_700 ∷ red_500 ∷ red_700 ∷ green_500 ∷ green_700
    ∷ blue_500 ∷ blue_700 ∷ teal_500 ∷ violet_500 ∷ []

abbrev pub has_id : Text → AccentPreset → Bool
has_id id p = text_eq p.id id

abbrev pub or_else {ℓ} : {A : Type ℓ} → Option A → Option A → Option A
or_else none other = other
or_else (some x) other = some x

-- The second `find` is asserted to succeed by `!`; here its absence stays visible.
unfoldable pub resolve_accent_preset : Text → Option AccentPreset
resolve_accent_preset id =
    or_else (find (has_id id) accent_presets) (find (has_id default_accent_id) accent_presets)

-- The inline style of `document.documentElement`, by property.
abbrev pub Style : Type 0
Style = Text → Option Text

abbrev pub set_property : Text → Text → Style → Style
set_property key value style k = if text_eq key k then some value else style k

abbrev pub remove_property : Text → Style → Style
remove_property key style k = if text_eq key k then none else style k

-- `tokens[k]`
abbrev pub lookup : Tokens → Text → Option Text
lookup [] k = none
lookup ((key, value) ∷ ts) k = or_else (lookup ts k) (if text_eq key k then some value else none)

-- The loop over `Object.entries(preset.tokens)`.
unfoldable pub set_tokens : Tokens → Style → Style
set_tokens [] style = style
set_tokens ((key, value) ∷ ts) style = set_tokens ts (set_property key value style)

unfoldable pub previous_keys : List Text
previous_keys =
    codes "--brand"
    ∷ codes "--brand-hover"
    ∷ codes "--brand-press"
    ∷ codes "--brand-tint"
    ∷ codes "--chart-primary"
    ∷ codes "--ember-400"
    ∷ codes "--ember-500"
    ∷ codes "--ember-600"
    ∷ codes "--ember-700"
    ∷ codes "--text-link"
    ∷ codes "--text-link-hover"
    ∷ []

-- The loop over `previousKeys`: a key that the preset does not set is removed.
unfoldable pub clear_keys : List Text → Tokens → Style → Style
clear_keys [] ts style = style
clear_keys (key ∷ keys) ts style =
    clear_keys keys ts (if is_some (lookup ts key) then style else remove_property key style)

abbrev pub apply_preset : Option AccentPreset → Style → Style
apply_preset none style = style
apply_preset (some p) style = clear_keys previous_keys p.tokens (set_tokens p.tokens style)

-- The effect on `[accentId]`.
unfoldable pub apply_accent : Text → Style → Style
apply_accent id style = apply_preset (resolve_accent_preset id) style

-- One accent after another.
unfoldable pub apply_accents : List Text → Style → Style
apply_accents [] style = style
apply_accents (id ∷ ids) style = apply_accents ids (apply_accent id style)
