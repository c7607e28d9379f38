-- ===== src/Concurrency.antt =====
-- internal/concurrency: signals over channels.
pub mod Signal
pub mod Waiting
