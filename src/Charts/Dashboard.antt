-- ===== src/Charts/Dashboard.antt =====
-- The dashboards screen: frontend/src/domains/dashboards.
pub mod Entities
pub mod Health
mod Screen
mod Tests
