-- ===== src/DataCatalog.antt =====
-- The data catalog: frontend/src/domains/data-catalog.
mod Preview
mod Bytes
mod Lake
mod Tables
mod Lineage
