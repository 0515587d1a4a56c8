-- ===== src/Library.antt =====
-- internal/library: the filters of the virtual paths.
pub mod Filter
