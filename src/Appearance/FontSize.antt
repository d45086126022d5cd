-- ===== src/Appearance/FontSize.antt =====
-- frontend/src/domains/connections/ui/FontSizeStepper.tsx and ShadowDepthSlider.tsx. Scales are counted
-- in hundredths, to which the stepper rounds after each step.
mod Laws
mod Tests
use openscale.Base.{
  ℕ, zero, suc, ◌+◌, ◌-◌, min, max, Text, codes, List, [], ◌∷◌, ◌++◌, Bool, true, false, leb,
  if◌then◌else◌,
}
use openscale.Base.Decimal.{show}

abbrev pub min_scale : ℕ
min_scale = 80

abbrev pub max_scale : ℕ
max_scale = 140

abbrev pub step_scale : ℕ
step_scale = 10

-- `onChange(Math.min(MAX, Math.max(MIN, next)))`
abbrev pub clamped : ℕ → ℕ
clamped next = min max_scale (max min_scale next)

pub data Click : Type 0 where
  decrease increase : Click

abbrev pub is_disabled : Click → ℕ → Bool
is_disabled decrease value = leb value min_scale
is_disabled increase value = leb max_scale value

-- A click on a button; a disabled one does nothing. A scale below 0 is clamped like 0.
unfoldable pub click : Click → ℕ → ℕ
click decrease value = if is_disabled decrease value then value else clamped (value - step_scale)
click increase value = if is_disabled increase value then value else clamped (value + step_scale)

unfoldable pub click_all : ℕ → List Click → ℕ
click_all value [] = value
click_all value (c ∷ cs) = click_all (click c value) cs

-- `{Math.round(value * 100)}%`
unfoldable pub scale_text : ℕ → Text
scale_text value = show value ++ codes "%"
