-- ===== src/SystemHealth/Cards.antt =====
-- frontend/src/domains/system-health/ui: InfrastructureScreen.tsx, ServiceControlButtons.tsx,
-- ServiceConsoleAffordance.tsx and ServiceHealthCard.tsx.
mod Tests
use openscale.Base.{
  ℕ, Text, codes, List, [], ◌∷◌, ◌++◌, map, Option, none, some, Bool, true, false, ◌&&◌, not, all,
  length, if◌then◌else◌,
}
use openscale.Base.Decimal.{show}
use openscale.Pipelines.Runs.{Status, good, warn, crit, is_present}
use openscale.SystemHealth.Rules.{
  ServiceHealth, SystemHealthSummary, is_crit, sort_services_for_display,
}
use openscale.SystemHealth.Control.{ContainerAction, start, stop, restart}

-- `isLinkable`
unfoldable pub is_linkable : ServiceHealth → Bool
is_linkable s = is_present s.console_url && not (is_crit s)

pub data Affordance : Type 0 where
  no_icon broken_heart link_icon : Affordance

unfoldable pub service_console_affordance : ServiceHealth → Affordance
service_console_affordance s =
    if not (is_present s.console_url)
    then no_icon
    else if is_crit s
    then broken_heart
    else link_icon

-- A button of a service: its label, whether it is disabled, what it asks for, and whether its icon
-- turns.
pub record ControlButton : Type 0 where
  pub label : Text
  pub disabled : Bool
  pub asks : ContainerAction
  pub spins : Bool

abbrev pub is_restart : Option ContainerAction → Bool
is_restart none = false
is_restart (some restart) = true
is_restart (some start) = false
is_restart (some stop) = false

abbrev pub is_pending : Option ContainerAction → Bool
is_pending none = false
is_pending (some a) = true

-- `pending` is `pendingAction`: what the row's mutation is doing, `none` while it is idle.
unfoldable pub service_control_buttons : Option ContainerAction → ServiceHealth → List ControlButton
service_control_buttons pending s =
    record {
      label = codes "Restart " ++ s.name;
      disabled = is_pending pending;
      asks = restart;
      spins = is_restart pending;
    }
    ∷ (if s.running
        then record {
          label = codes "Stop " ++ s.name;
          disabled = is_pending pending;
          asks = stop;
          spins = false;
        }
        else record {
          label = codes "Start " ++ s.name;
          disabled = is_pending pending;
          asks = start;
          spins = false;
        })
    ∷ []

abbrev pub status_text : Status → Text
status_text good = codes "good"
status_text warn = codes "warn"
status_text crit = codes "crit"

-- A card or a row of a service: the target of its link, if it is one, its texts and its icon.
pub record ServiceCard : Type 0 where
  pub link : Option Text
  pub led : Status
  pub led_label : Text
  pub name : Text
  pub icon : Affordance
  pub detail : Text

unfoldable pub service_card : ServiceHealth → ServiceCard
unfolding is_linkable service_console_affordance
service_card s = record {
  link = if is_linkable s then s.console_url else none;
  led = s.status;
  led_label = s.name ++ (codes ": " ++ status_text s.status);
  name = s.name;
  icon = service_console_affordance s;
  detail = s.detail;
}

abbrev pub is_good : ServiceHealth → Bool
is_good s = elim s.status [ good ↦ true | warn ↦ false | crit ↦ false ]

-- The line under the heading, whether the loading note is there, and the services in the order of
-- the display.
unfoldable pub infrastructure_screen :
    Bool → Option SystemHealthSummary → Text × Bool × List ServiceCard
unfolding sort_services_for_display service_card
infrastructure_screen is_loading none = (codes "Loading…", is_loading, [])
infrastructure_screen is_loading (some summary) = (
  show (length summary.services)
      ++ (codes " containers, "
          ++ (if all is_good summary.services
              then codes "all healthy"
              else codes "check status below")),
  is_loading,
  map service_card (sort_services_for_display summary.services),
)
