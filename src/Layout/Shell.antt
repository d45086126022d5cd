-- ===== src/Layout/Shell.antt =====
-- frontend/src/shared/layout: AppShell.tsx, Sidebar.tsx, TopBar.tsx and AccountMenu.tsx, as one state
-- with the router's path and the theme.
mod Laws
mod Tests
use openscale.Base.{
  ℕ, Text, codes, text_eq, List, [], ◌∷◌, ◌++◌, Option, none, some, Bool, true, false, not, find,
  filter, if◌then◌else◌,
}
use openscale.Base.Decimal.{show}
use openscale.Pipelines.Runs.{Status, good, warn, crit}
use openscale.Search.Catalogs.{NavEntry, nav_entries}
use openscale.Appearance.Settings.{ThemeOverride, light, dark}

abbrev pub primary_entries : List NavEntry
primary_entries = filter (λ e. not e.system_group) nav_entries

abbrev pub system_entries : List NavEntry
system_entries = filter (λ e. e.system_group) nav_entries

-- `nav_open` belongs to the shell, `menu_open` to the account menu, `path` to the router and
-- `theme` to the store.
pub record ShellState : Type 0 where
  pub nav_open : Bool
  pub menu_open : Bool
  pub path : Text
  pub theme : ThemeOverride

-- The backdrop and the cross close the drawer; a press outside the menu, and Escape, close the menu.
pub data ShellEvent : Type 0 where
  open_nav : ShellEvent
  close_nav : ShellEvent
  click_entry : NavEntry → ShellEvent
  click_account : ShellEvent
  press_outside : ShellEvent
  press_escape : ShellEvent
  click_settings : ShellEvent
  click_infrastructure : ShellEvent
  toggle_dark : Bool → ShellEvent

-- The items of the menu and its toggle are there while it is open; so are the listeners of its
-- effect, which set to false what is false otherwise.
unfoldable pub shell_step : ShellState → ShellEvent → ShellState
shell_step s open_nav = record s { nav_open = true }
shell_step s close_nav = record s { nav_open = false }
shell_step s (click_entry e) = record s { nav_open = false; path = e.path }
shell_step s click_account = record s { menu_open = not s.menu_open }
shell_step s press_outside = record s { menu_open = false }
shell_step s press_escape = record s { menu_open = false }
shell_step s click_settings =
    if s.menu_open then record s { menu_open = false; path = codes "/connections" } else s
shell_step s click_infrastructure =
    if s.menu_open then record s { menu_open = false; path = codes "/infrastructure" } else s
shell_step s (toggle_dark checked) =
    if s.menu_open then record s { theme = if checked then dark else light } else s

unfoldable pub shell_steps : ShellState → List ShellEvent → ShellState
shell_steps s [] = s
shell_steps s (e ∷ es) = shell_steps (shell_step s e) es

abbrev pub entry_at : Text → Option NavEntry
entry_at path = find (λ e. text_eq e.path path) nav_entries

abbrev pub label_or : Option NavEntry → Text
label_or none = codes "OpenScale"
label_or (some e) = e.label

abbrev pub subtitle_or : Option NavEntry → Text
subtitle_or none = []
subtitle_or (some e) = e.subtitle

unfoldable pub status_tone : Status → Text
status_tone good = codes "success"
status_tone warn = codes "warning"
status_tone crit = codes "danger"

unfoldable pub status_message : Status → Text
status_message good = codes "All systems normal"
status_message warn = codes "Degraded"
status_message crit = codes "Incident"

unfoldable pub status_dot : Status → Text
status_dot good = codes "var(--success)"
status_dot warn = codes "var(--warning)"
status_dot crit = codes "var(--danger)"

-- The bar over a screen: title, subtitle (none if it is empty), tone and text of the badge, and the
-- badge's tooltip.
pub record TopBar : Type 0 where
  pub title : Text
  pub subtitle : Text
  pub tone : Text
  pub message : Text
  pub tooltip : Text

unfoldable pub top_bar : ℕ → ℕ → Status → Text → TopBar
unfolding status_tone status_message nav_entries
top_bar services_up services_total system_status path = record {
  title = label_or (entry_at path);
  subtitle = subtitle_or (entry_at path);
  tone = status_tone system_status;
  message = status_message system_status;
  tooltip =
      show services_up ++ (codes " of " ++ (show services_total ++ codes " services healthy"));
}

-- The strip at the foot of the sidebar: the label and the colour of its dot, and its text.
unfoldable pub sidebar_strip : ℕ → ℕ → Status → Text × Text × Text
unfolding status_dot
sidebar_strip services_up services_total overall_status = (
  show services_up ++ (codes " of " ++ (show services_total ++ codes " services up")),
  status_dot overall_status,
  show services_up ++ (codes "/" ++ show services_total),
)
