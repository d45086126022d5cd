-- ===== src/SystemHealth/Tests.antt =====
-- A list of three services.
use openscale.Base.{codes, List, [], ◌∷◌, true, false, none, some, ◌≡◌, refl}
use openscale.Pipelines.Runs.{good, warn, crit}
use openscale.SystemHealth.Rules.{ServiceHealth, SystemHealthSummary, sort_services_for_display}
use openscale.SystemHealth.Control.{on_success, on_success-IsPatched, IsPatched, ids}

abbrev kafka : ServiceHealth
kafka = record {
  id = codes "kafka";
  name = codes "Kafka";
  status = warn;
  detail = codes "2.0ms";
  console_url = none;
  running = true;
}

abbrev minio : ServiceHealth
minio = record {
  id = codes "minio";
  name = codes "MinIO";
  status = good;
  detail = codes "4.1ms";
  console_url = some (codes "http://localhost:9001");
  running = true;
}

abbrev redis : ServiceHealth
redis = record {
  id = codes "redis";
  name = codes "Redis";
  status = crit;
  detail = codes "down";
  console_url = none;
  running = false;
}

abbrev services : List ServiceHealth
services = kafka ∷ redis ∷ minio ∷ []

console_leads :
    ids (sort_services_for_display services) ≡ codes "minio" ∷ codes "kafka" ∷ codes "redis" ∷ []
unfolding sort_services_for_display
console_leads = refl

abbrev restarted : ServiceHealth
restarted = record redis { status = good; running = true }

on_success-IsPatched_example :
    (after : SystemHealthSummary) × (on_success restarted
        (some (record { services = services; overall_status = crit }))
      ≡ some after)
    × IsPatched restarted (record { services = services; overall_status = crit }) after
on_success-IsPatched_example =
    on_success-IsPatched restarted (record { services = services; overall_status = crit })
