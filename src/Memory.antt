-- ===== src/Memory.antt =====
-- The memory management of the kernel.
pub mod Pmm
pub mod Vmo
pub mod Vas
mod Tests
