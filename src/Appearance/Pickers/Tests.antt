-- ===== src/Appearance/Pickers/Tests.antt =====
-- One button of each picker is selected, that of the present value.
use openscale.Base.{ℕ, codes, List, [], ◌∷◌, filter, map, length, ◌≡◌, refl}
use openscale.Appearance.Settings.{
  VisualMode, flat, neumorphic, elevated, glass, outlined, brutalist, clay, terminal, aurora, paper,
  skeuomorphic, high_contrast, ChartVariant, hatch, grid, paired, lollipop, area, block, split,
  ticks, capsule, ledger, ghost, Change, set_visual_mode, set_chart_style,
}
use openscale.Appearance.Pickers.{
  modes, chart_styles, visual_mode_selector, chart_style_picker, chart_style_caption, setting_rows,
  depth_control, PickerButton,
}

abbrev chosen : List (PickerButton ℕ) → List (Change ℕ)
chosen buttons = map (λ b. b.changes) (filter (λ b. b.selected) buttons)

visual_mode_chosen :
    (mode : VisualMode) → chosen (visual_mode_selector mode) ≡ set_visual_mode mode ∷ []
unfolding visual_mode_selector modes
visual_mode_chosen flat = refl
visual_mode_chosen neumorphic = refl
visual_mode_chosen elevated = refl
visual_mode_chosen glass = refl
visual_mode_chosen outlined = refl
visual_mode_chosen brutalist = refl
visual_mode_chosen clay = refl
visual_mode_chosen terminal = refl
visual_mode_chosen aurora = refl
visual_mode_chosen paper = refl
visual_mode_chosen skeuomorphic = refl
visual_mode_chosen high_contrast = refl

chart_style_chosen :
    (style : ChartVariant) → chosen (chart_style_picker style) ≡ set_chart_style style ∷ []
unfolding chart_style_picker chart_styles
chart_style_chosen hatch = refl
chart_style_chosen grid = refl
chart_style_chosen paired = refl
chart_style_chosen lollipop = refl
chart_style_chosen area = refl
chart_style_chosen block = refl
chart_style_chosen split = refl
chart_style_chosen ticks = refl
chart_style_chosen capsule = refl
chart_style_chosen ledger = refl
chart_style_chosen ghost = refl

captioned :
    chart_style_caption ghost ≡ codes "Ghost + cap — Faint columns with an accent cap at the value."
unfolding chart_style_caption chart_styles
captioned = refl

flat_has_no_depth : length (setting_rows flat) ≡ 2
unfolding setting_rows depth_control
flat_has_no_depth = refl
