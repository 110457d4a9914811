-- ===== src/Arch.antt =====
-- The code of the kernel for the amd64 architecture.
pub mod PageTable
pub mod Acpi
mod Tests
