-- ===== src/Scheduler.antt =====
-- kernel/scheduler: processes with their handle tables, the system calls that hand handles over, and
-- mailboxes.
pub mod System
pub mod Process
pub mod Start
pub mod Mailbox
pub mod Instance
pub mod Aggregate
mod Tests
