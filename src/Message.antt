-- ===== src/Message.antt =====
-- shared/Message-v2: the conversions between FIX texts and values.
pub mod Convert
pub mod Types
pub mod MsgType
mod Tests
