-- ===== src/SqlEditor.antt =====
-- The SQL editor (frontend/src/domains/sql-editor): query outcomes, cells, export, history and panels.
pub mod Csv
pub mod History
pub mod Editor
pub mod Panels
mod Input
