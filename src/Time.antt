-- ===== src/Time.antt =====
-- The timers of the kernel.
pub mod Timer
