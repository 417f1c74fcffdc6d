-- ===== src/Network.antt =====
-- shared/Network: buffers, what is read of them, and what a stream receives.
pub mod Buffer
pub mod Reading
pub mod Socket
