-- ===== src/Pipelines.antt =====
-- The pipelines screen (frontend/src/domains/pipelines): job runs and how they are shown, live
-- events of one run, the sequential run of all stages, the run list and its cache.
pub mod Runs
pub mod Duration
pub mod Events
pub mod RunAll
pub mod RunForm
pub mod RunList
pub mod Screen
pub mod Confirm
pub mod RunTable
