-- ===== src/Ipc.antt =====
-- client/shared/IPC: what the client's programs say to each other.
pub mod Types
pub mod Wire
pub mod Helper
pub mod Framing
pub mod Exchange
pub mod Transport
pub mod Tests
