-- ===== src/Archive.antt =====
-- internal/fsutil and internal/archive: the names of archived objects.
pub mod KeyComponent
