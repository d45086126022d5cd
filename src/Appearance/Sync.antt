-- ===== src/Appearance/Sync.antt =====
-- frontend/src/domains/connections/application/useAppearanceSync.ts: the theme store kept in sync
-- with the row of the control-plane. The store, the two refs, the dependencies of the save effect
-- and its timeout are one record; a store update renders at once, and its effects run with it.
mod Steps
mod Laws
mod Tests
use openscale.Base.{List, [], ◌∷◌, ◌++◌, Option, none, some, Bool, true, false, not, if◌then◌else◌}
use openscale.Appearance.Settings.{AppearanceSnapshot, Change, apply_change, same_settings}

-- `rendered` are the dependencies with which the save effect ran last, `timer` the settings that
-- the pending timeout saves, and `saved` the bodies of the PUT requests so far.
pub record Sync (Number : Type 0) : Type 0 where
  pub store : AppearanceSnapshot Number
  pub rendered : AppearanceSnapshot Number
  pub hydrated : Bool
  pub skip_next_save : Bool
  pub timer : Option (AppearanceSnapshot Number)
  pub saved : List (AppearanceSnapshot Number)

-- `settles` is the end of the query, with the stored settings or, if it failed, without.
pub data Event (Number : Type 0) : Type 0 where
  settles : Option (AppearanceSnapshot Number) → Event Number
  changes : Change Number → Event Number
  fires : Event Number

module _ {Number : Type 0} where
  -- The timeout's callback.
  unfoldable pub fire : Sync Number → Sync Number
  fire c = elim c.timer [
    | none ↦ c
    | some settings ↦ record c { timer = none; saved = c.saved ++ settings ∷ [] }
  ]

module _ {Number : Type 0} (same : Number → Number → Bool) where
  abbrev pub hydrate : Option (AppearanceSnapshot Number) → Sync Number → Sync Number
  hydrate none c = record c { hydrated = true }
  hydrate (some stored) c = record c {
    hydrated = true;
    skip_next_save = if same_settings same c.store stored then c.skip_next_save else true;
    store = stored;
  }

  -- The first effect, once `isFetched` holds.
  unfoldable pub hydrate_effect : Option (AppearanceSnapshot Number) → Sync Number → Sync Number
  hydrate_effect stored c = if c.hydrated then c else hydrate stored c

  -- The second effect: its clean-up, which clears the last timeout, and its body.
  unfoldable pub save_effect : Sync Number → Sync Number
  save_effect c =
      if not c.hydrated
      then record c { timer = none; rendered = c.store }
      else if c.skip_next_save
      then record c { timer = none; rendered = c.store; skip_next_save = false }
      else record c { timer = some c.store; rendered = c.store }

  -- A render: the second effect runs if one of its dependencies has changed.
  unfoldable pub render : Sync Number → Sync Number
  render c = if same_settings same c.rendered c.store then c else save_effect c

  unfoldable pub sync_step : Sync Number → Event Number → Sync Number
  sync_step c (settles stored) = render (hydrate_effect stored c)
  sync_step c (changes e) = render (record c { store = apply_change e c.store })
  sync_step c fires = fire c

  unfoldable pub run_sync : Sync Number → List (Event Number) → Sync Number
  run_sync c [] = c
  run_sync c (e ∷ es) = run_sync (sync_step c e) es

-- After the mount, with the settings of the session. The query has not settled yet, and the run of
-- the save effect at the mount returns at its first test.
abbrev pub mounted : {Number : Type 0} → AppearanceSnapshot Number → Sync Number
mounted settings = record {
  store = settings;
  rendered = settings;
  hydrated = false;
  skip_next_save = false;
  timer = none;
  saved = [];
}
