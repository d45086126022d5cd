-- ===== src/Appearance/Settings/Compare.antt =====
-- Equality of the settings' comparison.
use openscale.Base.{
  Text, codes, text_eq, text_eq_iff, text_eq_refl, Bool, true, false, ◌&&◌, if◌then◌else◌, ◌≡◌, ◌↔◌,
  refl, ap, sym, ◌∙◌,
}
use openscale.Appearance.Settings.{
  ThemeOverride, light, dark, VisualMode, flat, neumorphic, elevated, glass, outlined, brutalist,
  clay, terminal, aurora, paper, skeuomorphic, high_contrast, ChartVariant, hatch, grid, paired,
  lollipop, area, block, split, ticks, capsule, ledger, ghost, AppearanceSnapshot, theme_text,
  mode_text, chart_text, same_settings,
}

-- The union's value that a string names; any other string gives the first.
theme_of : Text → ThemeOverride
theme_of t = if text_eq t (codes "dark") then dark else light

mode_of : Text → VisualMode
mode_of t =
    if text_eq t (codes "neumorphic")
    then neumorphic
    else if text_eq t (codes "elevated")
    then elevated
    else if text_eq t (codes "glass")
    then glass
    else if text_eq t (codes "outlined")
    then outlined
    else if text_eq t (codes "brutalist")
    then brutalist
    else if text_eq t (codes "clay")
    then clay
    else if text_eq t (codes "terminal")
    then terminal
    else if text_eq t (codes "aurora")
    then aurora
    else if text_eq t (codes "paper")
    then paper
    else if text_eq t (codes "skeuomorphic")
    then skeuomorphic
    else if text_eq t (codes "high-contrast")
    then high_contrast
    else flat

chart_of : Text → ChartVariant
chart_of t =
    if text_eq t (codes "grid")
    then grid
    else if text_eq t (codes "paired")
    then paired
    else if text_eq t (codes "lollipop")
    then lollipop
    else if text_eq t (codes "area")
    then area
    else if text_eq t (codes "block")
    then block
    else if text_eq t (codes "split")
    then split
    else if text_eq t (codes "ticks")
    then ticks
    else if text_eq t (codes "capsule")
    then capsule
    else if text_eq t (codes "ledger")
    then ledger
    else if text_eq t (codes "ghost")
    then ghost
    else hatch

theme_of-theme_text : (t : ThemeOverride) → theme_of (theme_text t) ≡ t
unfolding theme_of
theme_of-theme_text light = refl
theme_of-theme_text dark = refl

mode_of-mode_text : (m : VisualMode) → mode_of (mode_text m) ≡ m
unfolding mode_of
mode_of-mode_text flat = refl
mode_of-mode_text neumorphic = refl
mode_of-mode_text elevated = refl
mode_of-mode_text glass = refl
mode_of-mode_text outlined = refl
mode_of-mode_text brutalist = refl
mode_of-mode_text clay = refl
mode_of-mode_text terminal = refl
mode_of-mode_text aurora = refl
mode_of-mode_text paper = refl
mode_of-mode_text skeuomorphic = refl
mode_of-mode_text high_contrast = refl

chart_of-chart_text : (c : ChartVariant) → chart_of (chart_text c) ≡ c
unfolding chart_of
chart_of-chart_text hatch = refl
chart_of-chart_text grid = refl
chart_of-chart_text paired = refl
chart_of-chart_text lollipop = refl
chart_of-chart_text area = refl
chart_of-chart_text block = refl
chart_of-chart_text split = refl
chart_of-chart_text ticks = refl
chart_of-chart_text capsule = refl
chart_of-chart_text ledger = refl
chart_of-chart_text ghost = refl

theme_text-injective : (s t : ThemeOverride) → text_eq (theme_text s) (theme_text t) ≡ true → s ≡ t
theme_text-injective s t h =
    sym (theme_of-theme_text s)
    ∙ (ap theme_of ((text_eq_iff (theme_text s) (theme_text t)).0 h) ∙ theme_of-theme_text t)

mode_text-injective : (s t : VisualMode) → text_eq (mode_text s) (mode_text t) ≡ true → s ≡ t
mode_text-injective s t h =
    sym (mode_of-mode_text s)
    ∙ (ap mode_of ((text_eq_iff (mode_text s) (mode_text t)).0 h) ∙ mode_of-mode_text t)

chart_text-injective : (s t : ChartVariant) → text_eq (chart_text s) (chart_text t) ≡ true → s ≡ t
chart_text-injective s t h =
    sym (chart_of-chart_text s)
    ∙ (ap chart_of ((text_eq_iff (chart_text s) (chart_text t)).0 h) ∙ chart_of-chart_text t)

and_true : (a b : Bool) → (a && b) ≡ true → (a ≡ true) × (b ≡ true)
and_true true true h = (refl, refl)
and_true true false h = cc
and_true false b h = cc

-- The comparison decides equality, if `===` on the numbers does.
module _ {Number : Type 0} (same : Number → Number → Bool)
    (same_iff : (x y : Number) → (same x y ≡ true) ↔ (x ≡ y)) where
  pub same_settings_refl : (a : AppearanceSnapshot Number) → same_settings same a a ≡ true
  unfolding same_settings
  same_settings_refl a =
      rw
        (
          text_eq_refl (theme_text a.theme_override),
          text_eq_refl (mode_text a.visual_mode),
          text_eq_refl a.accent_id,
          text_eq_refl (chart_text a.chart_style),
          (same_iff a.shadow_scale a.shadow_scale).1 refl,
          (same_iff a.ui_scale a.ui_scale).1 refl,
        )
        refl

  pub same_settings_sound :
      (a b : AppearanceSnapshot Number) → same_settings same a b ≡ true → a ≡ b
  unfolding same_settings
  same_settings_sound a b h =
      let (theme, h) = and_true _ _ h in
      let (mode, h) = and_true _ _ h in
      let (accent, h) = and_true _ _ h in
      let (chart, h) = and_true _ _ h in
      let (shadow, ui) = and_true _ _ h in
      let theme_eq = theme_text-injective a.theme_override b.theme_override theme in
      let mode_eq = mode_text-injective a.visual_mode b.visual_mode mode in
      let accent_eq = (text_eq_iff a.accent_id b.accent_id).0 accent in
      let chart_eq = chart_text-injective a.chart_style b.chart_style chart in
      let shadow_eq = (same_iff a.shadow_scale b.shadow_scale).0 shadow in
      let ui_eq = (same_iff a.ui_scale b.ui_scale).0 ui in
      λ i. record {
        theme_override = theme_eq i;
        visual_mode = mode_eq i;
        accent_id = accent_eq i;
        chart_style = chart_eq i;
        shadow_scale = shadow_eq i;
        ui_scale = ui_eq i;
      }
