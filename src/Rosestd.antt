-- ===== src/Rosestd.antt =====
-- The kernel's standard library, libraries/rosestd.
pub mod CString
pub mod StringView
pub mod CharConv
mod Tests
