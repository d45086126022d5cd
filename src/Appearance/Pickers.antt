-- ===== src/Appearance/Pickers.antt =====
-- frontend/src/domains/connections/ui: the pickers of VisualModeSelector.tsx, ChartStylePicker.tsx and
-- ThemeColorPicker.tsx, and the settings of ConnectionsScreen.tsx. The previews are left out, but for
-- those of the charts in Sketch.
mod Tests
use openscale.Base.{
  Text, codes, text_eq, List, [], ◌∷◌, ◌++◌, map, Option, none, some, Bool, true, false, find,
}
use openscale.Appearance.Settings.{
  VisualMode, flat, neumorphic, elevated, glass, outlined, brutalist, clay, terminal, aurora, paper,
  skeuomorphic, high_contrast, ChartVariant, hatch, grid, paired, lollipop, area, block, split,
  ticks, capsule, ledger, ghost, mode_text, chart_text, Change, set_visual_mode, set_chart_style,
  set_accent,
}
use openscale.Appearance.Accents.{AccentPreset, accent_presets}

-- An option of a picker: its value, its label, and its description or hint.
pub record PickerOption (Value : Type 0) : Type 0 where
  pub value : Value
  pub label : Text
  pub hint : Text

abbrev pub option : {Value : Type 0} → Value → Text → Text → PickerOption Value
option value label hint = record { value = value; label = label; hint = hint }

-- `MODES`
unfoldable pub modes : List (PickerOption VisualMode)
modes =
    option flat (codes "Flat") (codes "Solid surfaces, a real border, one quiet shadow")
    ∷ option neumorphic (codes "Neumorphic") (codes "Soft embossed dual-shadow surfaces")
    ∷ option elevated (codes "Elevated") (codes "Solid surfaces lifted with a drop shadow")
    ∷ option glass (codes "Glass") (codes "Translucent, blurred surfaces")
    ∷ option outlined (codes "Outlined") (codes "No fill beyond the shell, just a bold line")
    ∷ option brutalist (codes "Brutalist") (codes "Thick borders, hard offset shadow")
    ∷ option clay (codes "Clay") (codes "Puffy soft-shadow surfaces")
    ∷ option terminal (codes "Terminal") (codes "Monospace surfaces on a near-black canvas")
    ∷ option aurora (codes "Aurora") (codes "Gradient wash with an ambient glow")
    ∷ option paper (codes "Paper") (codes "Warm, borderless stacked-sheet look")
    ∷ option skeuomorphic (codes "Skeuomorphic") (codes "Beveled gradient hardware-button look")
    ∷ option high_contrast (codes "High contrast") (codes "Pure borders, no shadow, max legibility")
    ∷ []

-- `CHART_STYLES`
unfoldable pub chart_styles : List (PickerOption ChartVariant)
chart_styles =
    option hatch (codes "Hatched")
      (codes "The console default — wide stacked bars with the ember hatch.")
    ∷ option grid (codes "Hairline grid")
        (codes "Thin flat columns. The quietest option on dense screens.")
    ∷ option paired (codes "Grouped pairs")
        (codes "Series side by side, for comparing rather than totalling.")
    ∷ option lollipop (codes "Lollipop") (codes "Stem and dot — least ink per data point.")
    ∷ option area (codes "Stacked area")
        (codes "Continuous shape when the trend matters more than the day.")
    ∷ option block (codes "Solid block")
        (codes "Full-width columns, square corners. The loudest option.")
    ∷ option split (codes "Split baseline") (codes "Primary up, secondary down from a shared line.")
    ∷ option ticks (codes "Segmented ticks")
        (codes "Bars built from counted units instead of a fill.")
    ∷ option capsule (codes "Capsule track")
        (codes "Each bar in its own ghost track, so headroom stays visible.")
    ∷ option ledger (codes "Horizontal ledger")
        (codes "Ranked rows with values in line. Fewer points, more precision.")
    ∷ option ghost (codes "Ghost + cap") (codes "Faint columns with an accent cap at the value.")
    ∷ []

-- A button of a picker: whether it is the selected one, its text, and what a click changes.
pub record PickerButton (Number : Type 0) : Type 0 where
  pub selected : Bool
  pub label : Text
  pub changes : Change Number

module _ {Number : Type 0} where
  unfoldable pub visual_mode_selector : VisualMode → List (PickerButton Number)
  unfolding modes
  visual_mode_selector value =
      map
        (λ o. record {
          selected = text_eq (mode_text o.value) (mode_text value);
          label = o.label;
          changes = set_visual_mode o.value;
        })
        modes

  unfoldable pub chart_style_picker : ChartVariant → List (PickerButton Number)
  unfolding chart_styles
  chart_style_picker value =
      map
        (λ o. record {
          selected = text_eq (chart_text o.value) (chart_text value);
          label = o.label;
          changes = set_chart_style o.value;
        })
        chart_styles

  unfoldable pub theme_color_picker : Text → List (PickerButton Number)
  theme_color_picker accent_id =
      map
        (λ p. record {
          selected = text_eq p.id accent_id;
          label = p.name;
          changes = set_accent p.id;
        })
        accent_presets

abbrev pub caption_of : Option (PickerOption ChartVariant) → Text
caption_of none = []
caption_of (some o) = o.label ++ (codes " — " ++ o.hint)

-- The line under the styles, of the active one.
unfoldable pub chart_style_caption : ChartVariant → Text
unfolding chart_styles
chart_style_caption value =
    caption_of (find (λ o. text_eq (chart_text o.value) (chart_text value)) chart_styles)

-- `DEPTH_CONTROL`
unfoldable pub depth_control : VisualMode → Option (Text × Text)
depth_control flat = none
depth_control neumorphic =
    some (codes "Shadow depth", codes "How pronounced the neumorphic shadows are")
depth_control elevated = some (codes "Shadow depth", codes "How pronounced the elevation shadow is")
depth_control glass = some (codes "Blur intensity", codes "How strong the background blur is")
depth_control outlined = none
depth_control brutalist = some (codes "Shadow offset", codes "How far the hard shadow is offset")
depth_control clay = some (codes "Puffiness", codes "How pronounced the clay shadow is")
depth_control terminal = some (codes "Glow intensity", codes "How strong the border glow is")
depth_control aurora = some (codes "Glow intensity", codes "How strong the ambient glow is")
depth_control paper = some (codes "Shadow depth", codes "How pronounced the paper shadow is")
depth_control skeuomorphic = some (codes "Bevel depth", codes "How pronounced the bevel shadow is")
depth_control high_contrast = none

abbrev pub depth_rows : Option (Text × Text) → List (Text × Text)
depth_rows none = []
depth_rows (some row) = row ∷ []

-- The titles and descriptions of the settings' rows.
unfoldable pub setting_rows : VisualMode → List (Text × Text)
unfolding depth_control
setting_rows mode =
    (codes "Theme", codes "Follows system unless overridden")
    ∷ (depth_rows (depth_control mode)
        ++ (codes "Font size", codes "Scales all text and UI elements") ∷ [])
