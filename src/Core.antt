-- ===== src/Core.antt =====
-- shared/Core.
pub mod Enum
pub mod Float
pub mod Order
