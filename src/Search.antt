-- ===== src/Search.antt =====
-- The search of the top bar: frontend/src/shared/search and frontend/src/shared/layout/SearchBar.tsx.
pub mod Catalogs
pub mod Matching
pub mod Results
pub mod Bar
mod Dropdown
