-- ===== src/Archive.antt =====
-- libraries/archive.
pub mod Cpio
mod Tests
