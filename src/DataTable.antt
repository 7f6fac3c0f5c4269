-- ===== src/DataTable.antt =====
-- web/src/components/data-table: the state behind every resource table.
pub mod Sorting
pub mod Faceted
pub mod Cells
pub mod Pager
pub mod Query
pub mod Table
