-- ===== src/Process.antt =====
-- kernel/src/process: the scheduler.
pub mod Scheduler
