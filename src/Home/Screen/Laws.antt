-- ===== src/Home/Screen/Laws.antt =====
-- The pills of the recent runs and the chart of the revenue.
use openscale.Base.{ℕ, suc, List, [], ◌∷◌, true, ◌≡◌, ◌≢◌, refl}
use openscale.Appearance.Settings.{
  ChartVariant, hatch, grid, paired, lollipop, area, block, split, ticks, capsule, ledger, ghost,
}
use openscale.Charts.Console.{effective_variant, single_series, fall_back}
use openscale.Home.Screen.{chart_data}

chart_data-single : (i : ℕ) (values : List ℕ) → single_series (chart_data i values) ≡ true
unfolding chart_data single_series
chart_data-single i [] = refl
chart_data-single i (v ∷ vs) = chart_data-single (suc i) vs

fall_back-one : (v : ChartVariant) → (fall_back true v ≢ split) × (fall_back true v ≢ paired)
fall_back-one hatch = (λ h. cc, λ h. cc)
fall_back-one grid = (λ h. cc, λ h. cc)
fall_back-one paired = (λ h. cc, λ h. cc)
fall_back-one lollipop = (λ h. cc, λ h. cc)
fall_back-one area = (λ h. cc, λ h. cc)
fall_back-one block = (λ h. cc, λ h. cc)
fall_back-one split = (λ h. cc, λ h. cc)
fall_back-one ticks = (λ h. cc, λ h. cc)
fall_back-one capsule = (λ h. cc, λ h. cc)
fall_back-one ledger = (λ h. cc, λ h. cc)
fall_back-one ghost = (λ h. cc, λ h. cc)

-- Whatever style is picked, the revenue chart of the home screen, which has one series, is never drawn
-- mirrored nor in pairs.
pub chart_data-never_split :
    (style : ChartVariant) (values : List ℕ)
    → (effective_variant style (chart_data 0 values) ≢ split)
      × (effective_variant style (chart_data 0 values) ≢ paired)
unfolding effective_variant
chart_data-never_split style values = rw (chart_data-single 0 values) (fall_back-one style)
