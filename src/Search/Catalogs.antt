-- ===== src/Search/Catalogs.antt =====
-- frontend/src/shared/layout/navigation.ts, without the icons, and the job catalog of
-- frontend/src/domains/pipelines/domain/entities.ts.
use openscale.Base.{Text, codes, List, [], ◌∷◌, Bool, true, false}

pub record NavEntry : Type 0 where
  pub path : Text
  pub label : Text
  pub subtitle : Text
  pub system_group : Bool

unfoldable pub nav_entries : List NavEntry
nav_entries =
    record {
      path = codes "/";
      label = codes "Home";
      subtitle = codes "Nine services, one pipeline chain, live container load.";
      system_group = false;
    }
    ∷ record {
      path = codes "/pipelines";
      label = codes "Pipelines";
      subtitle = codes "Bronze through model training, run by hand or on a chain.";
      system_group = false;
    }
    ∷ record {
      path = codes "/sql-editor";
      label = codes "SQL Editor";
      subtitle = codes "Read-only SQL against Postgres. Lake queries coming later.";
      system_group = false;
    }
    ∷ record {
      path = codes "/data-catalog";
      label = codes "Data Catalog";
      subtitle = codes "Postgres schema, the MinIO lake, and real pipeline lineage.";
      system_group = false;
    }
    ∷ record {
      path = codes "/notebooks";
      label = codes "Notebooks";
      subtitle = codes "JupyterLab, opened on the example notebooks.";
      system_group = false;
    }
    ∷ record {
      path = codes "/ml-workbench";
      label = codes "ML Workbench";
      subtitle = codes "MLflow experiments and models from the train job.";
      system_group = false;
    }
    ∷ record {
      path = codes "/streaming";
      label = codes "Streaming";
      subtitle = codes "Kafka replay of real Silver trips, streamed live over WebSocket.";
      system_group = false;
    }
    ∷ record {
      path = codes "/dashboards";
      label = codes "Dashboards";
      subtitle = codes "Gold-layer metrics over the full ingested history.";
      system_group = false;
    }
    ∷ record {
      path = codes "/infrastructure";
      label = codes "Infrastructure";
      subtitle = codes "Container health, restart and stop controls.";
      system_group = true;
    }
    ∷ record {
      path = codes "/connections";
      label = codes "Settings";
      subtitle = codes "Console appearance and interface preferences.";
      system_group = true;
    }
    ∷ []

pub record JobParamField : Type 0 where
  pub name : Text
  pub label : Text
  pub placeholder : Text

-- A missing `paramFields` is the empty list; the job runs at once in both cases.
pub record JobDefinition : Type 0 where
  pub job_type : Text
  pub label : Text
  pub stage : Text
  pub description : Text
  pub param_fields : List JobParamField

unfoldable pub job_catalog : List JobDefinition
job_catalog =
    record {
      job_type = codes "ingest";
      label = codes "Ingest (Bronze)";
      stage = codes "Bronze";
      description =
          codes "Download/validate TLC parquet for a month range, write to Bronze in MinIO.";
      param_fields =
          record {
            name = codes "start";
            label = codes "Start (YYYY-MM)";
            placeholder = codes "2024-07";
          }
          ∷ record {
            name = codes "end";
            label = codes "End (YYYY-MM)";
            placeholder = codes "2024-12";
          }
          ∷ [];
    }
    ∷ record {
      job_type = codes "silver";
      label = codes "Validate (Silver)";
      stage = codes "Silver";
      description =
          codes "Bronze -> Silver: reject/quarantine/flag invalid rows, write clean trips.";
      param_fields = [];
    }
    ∷ record {
      job_type = codes "gold";
      label = codes "Aggregate (Gold)";
      stage = codes "Gold";
      description =
          codes "Silver -> Gold: daily revenue, hourly demand, zone stats, congestion metrics.";
      param_fields = [];
    }
    ∷ record {
      job_type = codes "features";
      label = codes "Compute Features";
      stage = codes "Features";
      description = codes "Silver -> zone x hour features, written to Postgres and Redis.";
      param_fields = [];
    }
    ∷ record {
      job_type = codes "train";
      label = codes "Train Fare Model";
      stage = codes "Model";
      description =
          codes "Samples Silver trips, trains a fare-prediction model, logs it to MLflow.";
      param_fields = [];
    }
    ∷ []
