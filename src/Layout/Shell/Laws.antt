-- ===== src/Layout/Shell/Laws.antt =====
-- The bar names the screen that the sidebar and the menu lead to.
use openscale.Base.{
  ℕ, Text, codes, List, [], ◌∷◌, Option, none, some, Bool, true, false, All, ◌≡◌, refl, ap, is_some,
  if◌then◌else◌,
}
use openscale.Pipelines.Runs.{Status}
use openscale.Search.Catalogs.{NavEntry, nav_entries}
use openscale.Layout.Shell.{
  ShellState, ShellEvent, open_nav, close_nav, click_entry, click_account, press_outside,
  press_escape, click_settings, click_infrastructure, toggle_dark, shell_step, shell_steps,
  entry_at, top_bar, TopBar, primary_entries, system_entries, label_or, subtitle_or,
}

-- The path of the entry finds the entry itself.
abbrev pub IsFound : NavEntry → Type 0
unfolding nav_entries
IsFound e = entry_at e.path ≡ some e

-- An event of the screen: only entries that are found are clicked.
abbrev pub IsOffered : ShellEvent → Type 0
IsOffered (click_entry e) = IsFound e
IsOffered _ = Unit

-- The entry that a path belongs to.
pub record IsScreen (path : Text) : Type 0 where
  pub entry : NavEntry
  pub found : entry_at path ≡ some entry

pub is_some-IsScreen : (path : Text) → is_some (entry_at path) ≡ true → IsScreen path
unfolding nav_entries
is_some-IsScreen path h = at (entry_at path) refl h
  where
    at : (o : Option NavEntry) → entry_at path ≡ o → is_some o ≡ true → IsScreen path
    at none e h' = cc
    at (some entry) e h' = record { entry = entry; found = e }

if-IsScreen :
    (b : Bool) (s t : ShellState)
    → IsScreen s.path
    → IsScreen t.path
    → IsScreen (if b then s else t).path
if-IsScreen true s t h o = h
if-IsScreen false s t h o = o

step-IsScreen :
    (s : ShellState) (e : ShellEvent)
    → IsOffered e
    → IsScreen s.path
    → IsScreen (shell_step s e).path
unfolding shell_step nav_entries
step-IsScreen s open_nav o h = h
step-IsScreen s close_nav o h = h
step-IsScreen s (click_entry e) o h = record { entry = e; found = o }
step-IsScreen s click_account o h = h
step-IsScreen s press_outside o h = h
step-IsScreen s press_escape o h = h
step-IsScreen s click_settings o h =
    if-IsScreen s.menu_open _ s (is_some-IsScreen (codes "/connections") refl) h
step-IsScreen s click_infrastructure o h =
    if-IsScreen s.menu_open _ s (is_some-IsScreen (codes "/infrastructure") refl) h
step-IsScreen s (toggle_dark checked) o h = if-IsScreen s.menu_open _ s h h

steps-IsScreen :
    (s : ShellState) (es : List ShellEvent)
    → All IsOffered es
    → IsScreen s.path
    → IsScreen (shell_steps s es).path
unfolding shell_steps
steps-IsScreen s [] o h = h
steps-IsScreen s (e ∷ es) (o, os) h = steps-IsScreen (shell_step s e) es os (step-IsScreen s e o h)

-- The bar has the title and the subtitle of the entry of the path.
pub record IsTitled (path : Text) (bar : TopBar) : Type 0 where
  pub screen : IsScreen path
  pub title : bar.title ≡ screen.entry.label
  pub subtitle : bar.subtitle ≡ screen.entry.subtitle

screen-IsTitled :
    (up total : ℕ) (status : Status) (path : Text)
    → IsScreen path
    → IsTitled path (top_bar up total status path)
unfolding top_bar nav_entries
screen-IsTitled up total status path h = record {
  screen = h;
  title = ap label_or h.found;
  subtitle = ap subtitle_or h.found;
}

-- Every entry of the sidebar is the one found by its path; and from a screen of the navigation, whatever of
-- these and of the account menu is clicked, the bar over the screen has the title and the subtitle of
-- the entry that the present path belongs to.
pub shell_steps-IsTitled :
    (s : ShellState) (es : List ShellEvent) (up total : ℕ) (status : Status)
    → IsScreen s.path
    → All IsOffered es
    → All IsFound primary_entries
      × All IsFound system_entries
      × IsTitled (shell_steps s es).path (top_bar up total status (shell_steps s es).path)
unfolding nav_entries
shell_steps-IsTitled s es up total status h o = (
  (refl, (refl, (refl, (refl, (refl, (refl, (refl, (refl, tt)))))))),
  (refl, (refl, tt)),
  screen-IsTitled up total status (shell_steps s es).path (steps-IsScreen s es o h),
)
