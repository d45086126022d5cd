-- ===== src/Appearance/FontSize/Laws.antt =====
-- The buttons of the font size keep it in its range and are disabled exactly at the ends.
use openscale.Base.{ℕ, ◌≤◌, ◌<◌, List, [], ◌∷◌, false, ◌≡◌, ◌↔◌, arith}
use openscale.Appearance.FontSize.{Click, decrease, increase, is_disabled, click, click_all}

click_bounds :
    (c : Click) (value : ℕ)
    → 80 ≤ value
    → value ≤ 140
    → (80 ≤ click c value) × (click c value ≤ 140)
unfolding click
click_bounds decrease value p q = ground arith
click_bounds increase value p q = ground arith

-- The scale is in its range from the start on, whatever is clicked, and a button is disabled exactly
-- if a click on it would not change the scale.
pub record IsScale (value : ℕ) : Type 0 where
  pub above : 80 ≤ value
  pub below : value ≤ 140
  pub decreases : (is_disabled decrease value ≡ false) ↔ (click decrease value < value)
  pub increases : (is_disabled increase value ≡ false) ↔ (value < click increase value)

click-IsScale : (value : ℕ) → 80 ≤ value → value ≤ 140 → IsScale value
unfolding click
click-IsScale value p q = record {
  above = p;
  below = q;
  decreases = ground arith;
  increases = ground arith;
}

click_all-IsScale :
    (value : ℕ) (clicks : List Click) → 80 ≤ value → value ≤ 140 → IsScale (click_all value clicks)
unfolding click_all
click_all-IsScale value [] p q = click-IsScale value p q
click_all-IsScale value (c ∷ cs) p q =
    let b = click_bounds c value p q in click_all-IsScale (click c value) cs b.0 b.1
