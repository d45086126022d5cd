-- ===== src/Home.antt =====
-- The home screen: frontend/src/domains/home.
mod Overview
pub mod Gauges
mod Meters
mod Images
mod Screen
