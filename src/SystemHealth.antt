-- ===== src/SystemHealth.antt =====
-- The infrastructure screen (frontend/src/domains/system-health): the overall status, the order of
-- the service list, and the cache patch after a container action.
pub mod Rules
pub mod Sorting
pub mod Control
mod Cards
mod Tests
