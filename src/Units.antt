-- ===== src/Units.antt =====
-- server/src/ProcessUnit/User, ProcessUnit/Network/TCPOutput.cpp and ClientStore.cpp: the units that answer a client of
-- themselves, the numbers of its messages, and the store that holds it. A parser's result is an argument: a message, or
-- the reject that the parser made.
pub mod Logon
pub mod HeartBeat
pub mod Store
pub mod Output
pub mod Invariant
mod Tests
use fix4_2_protocol.Base.{ℕ, Str, Bool, Option}
use fix4_2_protocol.Core.Enum.{EncryptionMethod}
use fix4_2_protocol.Message.Types.{SessionReject}
use fix4_2_protocol.Session.Client.{InternalClient}

-- `HeartBeatInfo`; a time is a number of units.
pub record HeartBeatInfo : Type 0 where
  pub elapsing : ℕ
  pub test_request : Bool
  pub test_value : Option Str
  pub since : ℕ

-- A client with `m_hb_info`.
pub record UserSession : Type 0 where
  pub client : InternalClient
  pub info : HeartBeatInfo

-- `fix42::msg::Logon`
pub record LogonRequest : Type 0 where
  pub encrypt_method : EncryptionMethod
  pub heart_bt_int : ℕ

-- The messages that the units write, before `to_string`.
pub data Reply : Type 0 where
  logon_reply : LogonRequest → Reply
  logout_reply : Reply
  heart_beat_reply : Option Str → Reply
  test_request_reply : Str → Reply
  reject_reply : SessionReject → Reply

-- What `parseMessage` gives.
pub data Parsed (A : Type 0) : Type 0 where
  parsed : A → Parsed A
  refused : SessionReject → Parsed A
