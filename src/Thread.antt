-- ===== src/Thread.antt =====
-- shared/Thread.
pub mod QueueMutex
mod Tests
