-- ===== src/Charts.antt =====
-- The dashboards (frontend/src/domains/dashboards): drag to zoom, the pointer, the charts and their
-- marks, and the panels; with the console's bar chart
-- (frontend/src/shared/design-system/ConsoleBarChart.tsx).
pub mod Zoom
pub mod Axis
mod Labels
mod BarMark
pub mod Console
mod Pointer
mod Bars
mod Trend
mod Dashboard
