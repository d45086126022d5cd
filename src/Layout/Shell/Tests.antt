-- ===== src/Layout/Shell/Tests.antt =====
-- From the home screen to the settings, by the account menu.
use openscale.Base.{codes, List, [], ◌∷◌, All, true, false, ◌≡◌, refl}
use openscale.Base.Decimal.{show}
use openscale.Pipelines.Runs.{good}
use openscale.Search.Catalogs.{nav_entries}
use openscale.Appearance.Settings.{light, dark}
use openscale.Layout.Shell.{
  ShellState, ShellEvent, open_nav, click_account, click_settings, toggle_dark, press_escape,
  shell_step, shell_steps, top_bar, sidebar_strip, primary_entries, system_entries,
}
use openscale.Layout.Shell.Laws.{
  IsFound, IsTitled, IsScreen, is_some-IsScreen, shell_steps-IsTitled,
}

abbrev home : ShellState
home = record { nav_open = false; menu_open = false; path = codes "/"; theme = light }

abbrev to_settings : List ShellEvent
to_settings = open_nav ∷ click_account ∷ toggle_dark true ∷ click_settings ∷ []

goes_dark : (shell_steps home to_settings).theme ≡ dark
unfolding shell_steps shell_step
goes_dark = refl

titled : (top_bar 9 9 good (shell_steps home to_settings).path).title ≡ codes "Settings"
unfolding shell_steps shell_step top_bar nav_entries
titled = refl

a_closed_menu_has_no_items :
    (shell_steps home (click_account ∷ press_escape ∷ click_settings ∷ [])).path ≡ codes "/"
unfolding shell_steps shell_step
a_closed_menu_has_no_items = refl

eight_of_nine : (sidebar_strip 8 9 good).2 ≡ codes "8/9"
unfolding sidebar_strip show
eight_of_nine = refl

home-IsScreen : IsScreen home.path
unfolding nav_entries
home-IsScreen = is_some-IsScreen (codes "/") refl

shell_steps-IsTitled_example :
    All IsFound primary_entries
    × All IsFound system_entries
    × IsTitled
        (shell_steps home to_settings).path
        (top_bar 9 9 good (shell_steps home to_settings).path)
shell_steps-IsTitled_example =
    shell_steps-IsTitled home to_settings 9 9 good home-IsScreen (tt, (tt, (tt, (tt, tt))))
