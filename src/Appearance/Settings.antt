-- ===== src/Appearance/Settings.antt =====
-- frontend/src/app/theme-store.ts: the appearance settings and their setters, and the comparison of
-- settings in frontend/src/domains/connections/application/useAppearanceSync.ts.
pub mod Compare
use openscale.Base.{
  Text, text_eq, text_eq_iff, text_eq_refl, ap, sym, ◌∙◌, Bool, true, false, ◌&&◌, ◌≡◌, ◌↔◌, refl,
  if◌then◌else◌, codes,
}

pub data ThemeOverride : Type 0 where
  light dark : ThemeOverride

pub data VisualMode : Type 0 where
  flat neumorphic elevated glass outlined brutalist clay terminal aurora paper skeuomorphic
        high_contrast :
      VisualMode

pub data ChartVariant : Type 0 where
  hatch grid paired lollipop area block split ticks capsule ledger ghost : ChartVariant

-- The two scales are numbers of the host language.
pub record AppearanceSnapshot (Number : Type 0) : Type 0 where
  pub theme_override : ThemeOverride
  pub visual_mode : VisualMode
  pub accent_id : Text
  pub chart_style : ChartVariant
  pub shadow_scale : Number
  pub ui_scale : Number

abbrev pub default_chart_style : ChartVariant
default_chart_style = hatch

abbrev pub default_visual_mode : VisualMode
default_visual_mode = flat

-- A call of one of the setters.
pub data Change (Number : Type 0) : Type 0 where
  set_dark : Bool → Change Number
  set_visual_mode : VisualMode → Change Number
  set_accent : Text → Change Number
  set_chart_style : ChartVariant → Change Number
  set_shadow_scale : Number → Change Number
  set_ui_scale : Number → Change Number

unfoldable pub apply_change :
    {Number : Type 0} → Change Number → AppearanceSnapshot Number → AppearanceSnapshot Number
apply_change (set_dark checked) s = record s { theme_override = if checked then dark else light }
apply_change (set_visual_mode mode) s = record s { visual_mode = mode }
apply_change (set_accent id) s = record s { accent_id = id }
apply_change (set_chart_style style) s = record s { chart_style = style }
apply_change (set_shadow_scale value) s = record s { shadow_scale = value }
apply_change (set_ui_scale value) s = record s { ui_scale = value }

-- The strings of the three unions, which `===` compares.
abbrev pub theme_text : ThemeOverride → Text
theme_text light = codes "light"
theme_text dark = codes "dark"

abbrev pub mode_text : VisualMode → Text
mode_text flat = codes "flat"
mode_text neumorphic = codes "neumorphic"
mode_text elevated = codes "elevated"
mode_text glass = codes "glass"
mode_text outlined = codes "outlined"
mode_text brutalist = codes "brutalist"
mode_text clay = codes "clay"
mode_text terminal = codes "terminal"
mode_text aurora = codes "aurora"
mode_text paper = codes "paper"
mode_text skeuomorphic = codes "skeuomorphic"
mode_text high_contrast = codes "high-contrast"

abbrev pub chart_text : ChartVariant → Text
chart_text hatch = codes "hatch"
chart_text grid = codes "grid"
chart_text paired = codes "paired"
chart_text lollipop = codes "lollipop"
chart_text area = codes "area"
chart_text block = codes "block"
chart_text split = codes "split"
chart_text ticks = codes "ticks"
chart_text capsule = codes "capsule"
chart_text ledger = codes "ledger"
chart_text ghost = codes "ghost"

-- The equality of every pair of fields. `same` is `===` on numbers.
unfoldable pub same_settings :
    {Number : Type 0}
    → (Number → Number → Bool)
    → AppearanceSnapshot Number
    → AppearanceSnapshot Number
    → Bool
same_settings same a b =
    text_eq (theme_text a.theme_override) (theme_text b.theme_override)
    && (text_eq (mode_text a.visual_mode) (mode_text b.visual_mode)
        && (text_eq a.accent_id b.accent_id
            && (text_eq (chart_text a.chart_style) (chart_text b.chart_style)
                && (same a.shadow_scale b.shadow_scale && same a.ui_scale b.ui_scale))))
