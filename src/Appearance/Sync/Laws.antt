-- ===== src/Appearance/Sync/Laws.antt =====
-- The store and the control-plane's row agree.
use openscale.Base.{List, [], ◌∷◌, ◌++◌, Option, none, some, Bool, true, ◌≡◌, ◌↔◌, refl}
use openscale.Appearance.Settings.{AppearanceSnapshot, Change, apply_change, same_settings}
use openscale.Appearance.Sync.{
  Sync, Event, settles, changes, fires, hydrate_effect, render, sync_step, run_sync, mounted,
}
use openscale.Appearance.Settings.Compare.{same_settings_refl}
use openscale.Appearance.Sync.Steps.{
  apply_changes, all_changes, IsWaiting, InSync, fire-InSync, change-IsWaiting, change-InSync,
  settles-InSync-some, settles-InSync-none,
}

module _ {Number : Type 0} (same : Number → Number → Bool)
    (same_iff : (x y : Number) → (same x y ≡ true) ↔ (x ≡ y)) where
  -- Setters' calls before the query has settled.
  run-IsWaiting :
      (settings : AppearanceSnapshot Number) (c : Sync Number) (es : List (Change Number))
      → IsWaiting settings c
      → IsWaiting (apply_changes es settings) (run_sync same c (all_changes es))
  unfolding run_sync
  run-IsWaiting settings c [] w = w
  run-IsWaiting settings c (e ∷ es) w =
      run-IsWaiting (apply_change e settings) (sync_step same c (changes e)) es
        (change-IsWaiting same same_iff settings c e w)

  settled_again :
      (row r : Option (AppearanceSnapshot Number)) (before : AppearanceSnapshot Number)
      (c : Sync Number)
      → InSync row before c
      → sync_step same c (settles r) ≡ c
  unfolding sync_step hydrate_effect render
  settled_again row r before c v =
      let equal : same_settings same c.rendered c.store ≡ true =
        rw v.rendered (same_settings_refl same same_iff c.store) in
      simp (v.hydrated, equal)

  -- A query settles once; a second end changes nothing.
  step-InSync :
      (row : Option (AppearanceSnapshot Number)) (before : AppearanceSnapshot Number)
      (c : Sync Number) (e : Event Number)
      → InSync row before c
      → InSync row before (sync_step same c e)
  unfolding sync_step
  step-InSync row before c (settles r) v = rw (settled_again row r before c v) v
  step-InSync row before c (changes e) v = change-InSync same same_iff row before c e v
  step-InSync row before c fires v = fire-InSync same same_iff row before c v

  run-InSync_from :
      (row : Option (AppearanceSnapshot Number)) (before : AppearanceSnapshot Number)
      (c : Sync Number) (es : List (Event Number))
      → InSync row before c
      → InSync row before (run_sync same c es)
  unfolding run_sync
  run-InSync_from row before c [] v = v
  run-InSync_from row before c (e ∷ es) v =
      run-InSync_from row before (sync_step same c e) es (step-InSync row before c e v)

  run-append :
      (c : Sync Number) (es fs : List (Event Number))
      → run_sync same c (es ++ fs) ≡ run_sync same (run_sync same c es) fs
  unfolding run_sync
  run-append c [] fs = refl
  run-append c (e ∷ es) fs = run-append (sync_step same c e) es fs

  mounted-IsWaiting : (settings : AppearanceSnapshot Number) → IsWaiting settings (mounted settings)
  mounted-IsWaiting settings = record {
    shown = refl;
    rendered = refl;
    not_yet = refl;
    unarmed = refl;
    untimed = refl;
    unsaved = refl;
  }

  settles-InSync :
      (row : Option (AppearanceSnapshot Number)) (settings : AppearanceSnapshot Number)
      (c : Sync Number)
      → IsWaiting settings c
      → InSync row settings (sync_step same c (settles row))
  settles-InSync none settings c w = settles-InSync-none same same_iff settings c w
  settles-InSync (some stored) settings c w =
      (settles-InSync-some same same_iff stored settings c w).0

  -- Once the query has settled, after any calls of setters before it, and whatever setters, timeouts
  -- and renders follow: no skip of a save is left armed, and either a save of exactly the settings
  -- shown is pending, or the newest row that the control-plane sent or was sent is what is shown, or
  -- there is no such row and the settings are those shown when the query failed.
  pub run-InSync :
      (settings : AppearanceSnapshot Number) (row : Option (AppearanceSnapshot Number))
      (early : List (Change Number)) (late : List (Event Number))
      → InSync row
          (apply_changes early settings)
          (run_sync same (mounted settings) (all_changes early ++ settles row ∷ late))
  unfolding run_sync
  run-InSync settings row early late =
      let waiting = run-IsWaiting settings (mounted settings) early (mounted-IsWaiting settings) in
      let c = run_sync same (mounted settings) (all_changes early) in
      let whole = run-append (mounted settings) (all_changes early) (settles row ∷ late) in
      rw whole (
        run-InSync_from row (apply_changes early settings) (sync_step same c (settles row)) late
          (settles-InSync row (apply_changes early settings) c waiting))

  -- The settings that the control-plane has stored replace those shown, and are not written back.
  run-hydrates :
      (settings stored : AppearanceSnapshot Number) (early : List (Change Number))
      → let c =
          run_sync same (mounted settings) (all_changes early ++ settles (some stored) ∷ []) in
        (c.store ≡ stored) × (c.timer ≡ none) × (c.saved ≡ [])
  unfolding run_sync
  run-hydrates settings stored early =
      let waiting = run-IsWaiting settings (mounted settings) early (mounted-IsWaiting settings) in
      let c = run_sync same (mounted settings) (all_changes early) in
      let whole = run-append (mounted settings) (all_changes early) (settles (some stored) ∷ []) in
      let (synced, shown, idle, unsaved) =
        settles-InSync-some same same_iff stored (apply_changes early settings) c waiting in
      rw whole (shown, idle, unsaved)
