-- ===== src/Ipc/Types.antt =====
-- client/shared/IPC: MessageType.hpp, IpcHeader.hpp and the messages of Message/*.hpp. Types alone.
use fix4_2_protocol.Base.{ℕ, Str}

-- An enumeration of bytes: a byte that names no type is kept.
pub data MessageType : Type 0 where
  reject : MessageType
  front_to_initiator_auth : MessageType
  initiator_to_front_auth : MessageType
  back_to_initiator_auth : MessageType
  initiator_to_back_auth : MessageType
  initiator_to_front_valid_token : MessageType
  front_to_back_valid_token : MessageType
  back_to_front_valid_token : MessageType
  hand_shake_auth : MessageType
  status : MessageType
  logon : MessageType
  order_single : MessageType
  exec_new : MessageType
  exec_event : MessageType
  unnamed : ℕ → MessageType

pub record IpcHeader : Type 0 where
  pub msg_type : MessageType
  pub body_size : ℕ

pub record AuthFrontToInitiator : Type 0 where
  pub apikey : Str
  pub name : Str

pub record AuthInitiatorToFront : Type 0 where
  pub name : Str

pub record AuthInitiatorToBack : Type 0 where
  pub token : Str
  pub apikey : Str

pub record AuthBackToInitiator : Type 0 where
  pub apikey : Str
  pub port : ℕ

pub record InitiatorToFrontValidToken : Type 0 where
  pub token : Str
  pub port : ℕ

-- BackToFrontValidToken is another name of it.
pub record FrontToBackValidToken : Type 0 where
  pub token : Str

pub record RejectMessage : Type 0 where
  pub message : Str

pub record LogonMessage : Type 0 where
  pub user_id : Str
  pub seq_num : ℕ
  pub heart_beat : ℕ

-- The side is the byte of the enumeration Side.
pub record OrderSingle (F : Type 0) : Type 0 where
  pub symbol : Str
  pub order_id : Str
  pub price : F
  pub quantity : F
  pub side : ℕ

pub record Execution (F : Type 0) : Type 0 where
  pub symbol : Str
  pub order_id : Str
  pub exec_id : Str
  pub avg_price : F
  pub price : F
  pub side : ℕ
  pub quantity : F
  pub remain_qty : F
