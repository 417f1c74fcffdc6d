-- ===== src/Session.antt =====
-- server/src/ProcessUnit: the way of a client's message to the units.
pub mod Client
pub mod HeaderValidation
pub mod Router
pub mod Gate
pub mod Checksum
pub mod Input
mod Tests
use fix4_2_protocol.Base.{ℕ, List}
use fix4_2_protocol.Message.Types.{Header, SessionReject}

module _ (M : Type 0) where
  -- `Context<data::UnparsedMessage>`: the client is its place in the store, the message a type M.
  pub record Unparsed : Type 0 where
    pub client : ℕ
    pub receive_time : ℕ
    pub header : Header
    pub message : M

  -- `Context<data::StringOutput>` of a reject, before `to_string`.
  pub record Refusal : Type 0 where
    pub client : ℕ
    pub receive_time : ℕ
    pub reject : SessionReject

  -- The queues that the two units write to.
  pub record Queues : Type 0 where
    pub router : List Unparsed
    pub logon : List Unparsed
    pub logout : List Unparsed
    pub heartbeat : List Unparsed
    pub market_router : List Unparsed
    pub error : List Refusal
