-- ===== src/Appearance/Sync/Steps.antt =====
-- What one event does to the store, the row and the refs.
use openscale.Base.{
  List, [], ◌∷◌, ◌++◌, Option, none, some, Bool, true, false, ◌≡◌, ◌⊎◌, ◌↔◌, inl, inr, refl, ap,
  sym, ◌∙◌, arith, Bool-cases,
}
use openscale.Appearance.Settings.{AppearanceSnapshot, Change, apply_change, same_settings}
use openscale.Appearance.Settings.Compare.{same_settings_refl, same_settings_sound}
use openscale.Appearance.Sync.{
  Sync, Event, settles, changes, hydrate_effect, save_effect, render, fire, sync_step,
}

module _ {Number : Type 0} where
  -- The newest settings that the control-plane has seen or sent.
  abbrev pub row_after :
      Option (AppearanceSnapshot Number)
      → List (AppearanceSnapshot Number)
      → Option (AppearanceSnapshot Number)
  row_after row [] = row
  row_after row (s ∷ ss) = row_after (some s) ss

  row_after-push :
      (row : Option (AppearanceSnapshot Number)) (ss : List (AppearanceSnapshot Number))
      (s : AppearanceSnapshot Number)
      → row_after row (ss ++ s ∷ []) ≡ some s
  row_after-push row [] s = refl
  row_after-push row (x ∷ ss) s = row_after-push (some x) ss s

  abbrev pub apply_changes :
      List (Change Number) → AppearanceSnapshot Number → AppearanceSnapshot Number
  apply_changes [] s = s
  apply_changes (e ∷ es) s = apply_changes es (apply_change e s)

  abbrev pub all_changes : List (Change Number) → List (Event Number)
  all_changes [] = []
  all_changes (e ∷ es) = changes e ∷ all_changes es

  -- Before the query has settled: nothing has been saved, and nothing is about to be.
  pub record IsWaiting (settings : AppearanceSnapshot Number) (c : Sync Number) : Type 0 where
    pub shown : c.store ≡ settings
    pub rendered : c.rendered ≡ settings
    pub not_yet : c.hydrated ≡ false
    pub unarmed : c.skip_next_save ≡ false
    pub untimed : c.timer ≡ none
    pub unsaved : c.saved ≡ []

  -- After it has settled with `row`, over a store that showed `before`.
  pub record InSync (row : Option (AppearanceSnapshot Number)) (before : AppearanceSnapshot Number)
      (c : Sync Number) : Type 0 where
    pub hydrated : c.hydrated ≡ true
    pub rendered : c.rendered ≡ c.store
    pub unarmed : c.skip_next_save ≡ false
    pub agrees :
        (c.timer ≡ some c.store)
        ⊎ ((c.timer ≡ none)
            × ((row_after row c.saved ≡ some c.store)
                ⊎ ((row_after row c.saved ≡ none) × (c.store ≡ before))))

  fire_idle : (c : Sync Number) → c.timer ≡ none → fire c ≡ c
  unfolding fire
  fire_idle c h = ground arith

module _ {Number : Type 0} (same : Number → Number → Bool)
    (same_iff : (x y : Number) → (same x y ≡ true) ↔ (x ≡ y)) where
  pub change-IsWaiting :
      (settings : AppearanceSnapshot Number) (c : Sync Number) (e : Change Number)
      → IsWaiting settings c
      → IsWaiting (apply_change e settings) (sync_step same c (changes e))
  unfolding sync_step render save_effect
  change-IsWaiting settings c e w =
      elim (Bool-cases (same_settings same c.rendered (apply_change e c.store))) [
        | inl equal ↦
            let to = same_settings_sound same same_iff c.rendered (apply_change e c.store) equal in
            rw equal (record {
              shown = ap (apply_change e) w.shown;
              rendered = to ∙ ap (apply_change e) w.shown;
              not_yet = w.not_yet;
              unarmed = w.unarmed;
              untimed = w.untimed;
              unsaved = w.unsaved;
            })
        | inr other ↦
            rw (other, w.not_yet)
              (record {
                shown = ap (apply_change e) w.shown;
                rendered = ap (apply_change e) w.shown;
                not_yet = refl;
                unarmed = w.unarmed;
                untimed = refl;
                unsaved = w.unsaved;
              })
      ]

  pub settles-InSync-none :
      (settings : AppearanceSnapshot Number) (c : Sync Number)
      → IsWaiting settings c
      → InSync none settings (sync_step same c (settles none))
  unfolding sync_step render save_effect hydrate_effect
  settles-InSync-none settings c w =
      let equal : same_settings same c.rendered c.store ≡ true =
        rw (w.rendered, w.shown) (same_settings_refl same same_iff settings) in
      rw (w.not_yet, equal)
        (record {
          hydrated = refl;
          rendered = w.rendered ∙ sym w.shown;
          unarmed = w.unarmed;
          agrees = inr (w.untimed, inr (ap (row_after none) w.unsaved, w.shown));
        })

  pub settles-InSync-some :
      (stored settings : AppearanceSnapshot Number) (c : Sync Number)
      → IsWaiting settings c
      → InSync (some stored) settings (sync_step same c (settles (some stored)))
        × ((sync_step same c (settles (some stored))).store ≡ stored)
        × ((sync_step same c (settles (some stored))).timer ≡ none)
        × ((sync_step same c (settles (some stored))).saved ≡ [])
  unfolding sync_step render save_effect hydrate_effect
  settles-InSync-some stored settings c w =
      let base : c.rendered ≡ c.store = w.rendered ∙ sym w.shown in
      elim (Bool-cases (same_settings same c.store stored)) [
        | inl equal ↦
            let to = same_settings_sound same same_iff c.store stored equal in
            rw (w.not_yet, equal, base, equal)
              (
                record {
                  hydrated = refl;
                  rendered = to;
                  unarmed = w.unarmed;
                  agrees = inr (w.untimed, inl (ap (row_after (some stored)) w.unsaved));
                },
                refl,
                w.untimed,
                w.unsaved,
              )
        | inr other ↦
            rw (w.not_yet, other, base, other)
              (
                record {
                  hydrated = refl;
                  rendered = refl;
                  unarmed = refl;
                  agrees = inr (refl, inl (ap (row_after (some stored)) w.unsaved));
                },
                refl,
                refl,
                w.unsaved,
              )
      ]

  pub change-InSync :
      (row : Option (AppearanceSnapshot Number)) (before : AppearanceSnapshot Number)
      (c : Sync Number) (e : Change Number)
      → InSync row before c
      → InSync row before (sync_step same c (changes e))
  unfolding sync_step render save_effect
  change-InSync row before c e v =
      elim (Bool-cases (same_settings same c.rendered (apply_change e c.store))) [
        | inl equal ↦
            let to = same_settings_sound same same_iff c.rendered (apply_change e c.store) equal in
            let back : apply_change e c.store ≡ c.store = sym to ∙ v.rendered in
            rw equal (record {
              hydrated = v.hydrated;
              rendered = to;
              unarmed = v.unarmed;
              agrees = rw back v.agrees;
            })
        | inr other ↦
            rw (other, v.hydrated, v.unarmed)
              (record { hydrated = refl; rendered = refl; unarmed = refl; agrees = inl refl })
      ]

  pub fire-InSync :
      (row : Option (AppearanceSnapshot Number)) (before : AppearanceSnapshot Number)
      (c : Sync Number)
      → InSync row before c
      → InSync row before (fire c)
  unfolding fire
  fire-InSync row before c v = elim v.agrees [
    | inl pending ↦ rw pending (record {
      hydrated = v.hydrated;
      rendered = v.rendered;
      unarmed = v.unarmed;
      agrees = inr (refl, inl (row_after-push row c.saved c.store));
    })
    | inr (idle, rest) ↦ rw (fire_idle c idle) v
  ]
