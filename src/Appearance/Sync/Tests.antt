-- ===== src/Appearance/Sync/Tests.antt =====
-- A session of numbers for the host's number type: a dark theme stored, a scale and an accent picked.
use openscale.Base.{ℕ, codes, List, [], ◌∷◌, ◌++◌, some, true, false, ◌==◌, ◌≡◌, ◌↔◌, refl, arith}
use openscale.Appearance.Settings.{
  AppearanceSnapshot, Change, apply_change, same_settings, light, dark, default_visual_mode,
  default_chart_style, set_dark, set_accent, set_ui_scale,
}
use openscale.Appearance.Sync.{
  Event, settles, changes, fires, hydrate_effect, save_effect, render, fire, sync_step, run_sync,
  mounted,
}
use openscale.Appearance.Sync.Steps.{InSync, apply_changes, all_changes}
use openscale.Appearance.Sync.Laws.{run-InSync}

same_iff : (x y : ℕ) → ((x == y) ≡ true) ↔ (x ≡ y)
same_iff x y = (λ h. ground arith, λ h. ground arith)

abbrev defaults : AppearanceSnapshot ℕ
defaults = record {
  theme_override = light;
  visual_mode = default_visual_mode;
  accent_id = codes "ember-500";
  chart_style = default_chart_style;
  shadow_scale = 1;
  ui_scale = 1;
}

abbrev stored : AppearanceSnapshot ℕ
stored = record defaults { theme_override = dark }

abbrev early : List (Change ℕ)
early = set_ui_scale 2 ∷ []

abbrev late : List (Event ℕ)
late =
    changes (set_accent (codes "red-500"))
    ∷ changes (set_ui_scale 3)
    ∷ fires
    ∷ changes (set_dark false)
    ∷ []

-- Two picks in a row are saved once, by the timeout.
saved_once :
    (run_sync ◌==◌ (mounted defaults) (all_changes early ++ settles (some stored) ∷ late)).saved
    ≡ record stored { accent_id = codes "red-500"; ui_scale = 3 } ∷ []
unfolding run_sync sync_step render save_effect hydrate_effect fire same_settings apply_change
saved_once = refl

run-InSync_example :
    InSync
      (some stored)
      (apply_changes early defaults)
      (run_sync ◌==◌ (mounted defaults) (all_changes early ++ settles (some stored) ∷ late))
run-InSync_example = run-InSync ◌==◌ same_iff defaults (some stored) early late
