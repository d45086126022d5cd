-- ===== src/SystemHealth/Cards/Tests.antt =====
-- A stopped service with a console.
use openscale.Base.{codes, [], ◌∷◌, none, some, false, ◌≡◌, refl}
use openscale.Base.Decimal.{show}
use openscale.Pipelines.Runs.{crit}
use openscale.SystemHealth.Rules.{ServiceHealth}
use openscale.SystemHealth.Cards.{
  service_card, is_linkable, service_console_affordance, broken_heart, infrastructure_screen,
}

abbrev stopped : ServiceHealth
stopped = record {
  id = codes "minio";
  name = codes "MinIO";
  status = crit;
  detail = codes "down";
  console_url = some (codes "http://localhost:9001");
  running = false;
}

no_link_while_down : (service_card stopped).link ≡ none
unfolding service_card is_linkable
no_link_while_down = refl

a_broken_heart : (service_card stopped).icon ≡ broken_heart
unfolding service_card service_console_affordance
a_broken_heart = refl

one_container :
    (infrastructure_screen false
      (some (record { services = stopped ∷ []; overall_status = crit }))).0
    ≡ codes "1 containers, check status below"
unfolding infrastructure_screen show
one_container = refl
