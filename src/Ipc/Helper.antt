-- ===== src/Ipc/Helper.antt =====
-- client/shared/IPC/src/Helper.cpp: each message behind its header, whose size of the body is counted in
-- 32 bits. `frame` names the helper of each type, and `get_payload` the operator that reads it.
use fix4_2_protocol.Base.{ℕ, ◌+◌, ◌*◌, ◌%◌, length}
use fix4_2_protocol.Network.Buffer.{Buffer, FloatBytes, new_buffer, put_byte, get_byte}
use fix4_2_protocol.Network.Reading.{Reader, give}
use fix4_2_protocol.Ipc.Types.{
  MessageType, IpcHeader, AuthFrontToInitiator, AuthInitiatorToFront, AuthInitiatorToBack,
  AuthBackToInitiator, InitiatorToFrontValidToken, FrontToBackValidToken, RejectMessage,
  LogonMessage, OrderSingle, Execution,
}
use fix4_2_protocol.Ipc.Wire.{
  put_header, put_auth_front_to_initiator, get_auth_front_to_initiator, put_auth_initiator_to_front,
  get_auth_initiator_to_front, put_auth_initiator_to_back, get_auth_initiator_to_back,
  put_auth_back_to_initiator, get_auth_back_to_initiator, put_initiator_to_front_valid_token,
  get_initiator_to_front_valid_token, put_front_to_back_valid_token, get_front_to_back_valid_token,
  put_reject, get_reject, put_logon, get_logon, put_order_single, get_order_single, put_execution,
  get_execution,
}

abbrev pub header_of : MessageType → ℕ → IpcHeader
header_of t n = record { msg_type = t; body_size = n % 4294967296 }

abbrev pub start : MessageType → ℕ → Buffer
start t n = put_header (header_of t n) new_buffer

pub auth_front_to_initiator_frame : AuthFrontToInitiator → Buffer
auth_front_to_initiator_frame m =
    put_auth_front_to_initiator m
      (start MessageType.front_to_initiator_auth (4 * 2 + length m.apikey + length m.name))

pub auth_initiator_to_front_frame : AuthInitiatorToFront → Buffer
auth_initiator_to_front_frame m =
    put_auth_initiator_to_front m (start MessageType.initiator_to_front_auth (4 + length m.name))

pub auth_back_to_initiator_frame : AuthBackToInitiator → Buffer
auth_back_to_initiator_frame m =
    put_auth_back_to_initiator m
      (start MessageType.back_to_initiator_auth (4 * 2 + length m.apikey))

pub auth_initiator_to_back_frame : AuthInitiatorToBack → Buffer
auth_initiator_to_back_frame m =
    put_auth_initiator_to_back m
      (start MessageType.initiator_to_back_auth (4 * 2 + length m.apikey + length m.token))

pub initiator_to_front_valid_token_frame : InitiatorToFrontValidToken → Buffer
initiator_to_front_valid_token_frame m =
    put_initiator_to_front_valid_token m
      (start MessageType.initiator_to_front_valid_token (4 * 2 + length m.token))

pub front_to_back_valid_token_frame : FrontToBackValidToken → Buffer
front_to_back_valid_token_frame m =
    put_front_to_back_valid_token m
      (start MessageType.front_to_back_valid_token (4 + length m.token))

pub back_to_front_valid_token_frame : FrontToBackValidToken → Buffer
back_to_front_valid_token_frame m =
    put_front_to_back_valid_token m
      (start MessageType.back_to_front_valid_token (4 + length m.token))

pub reject_frame : RejectMessage → Buffer
reject_frame m = put_reject m (start MessageType.reject (4 + length m.message))

logon_frame : LogonMessage → Buffer
logon_frame m = put_logon m (start MessageType.logon (4 * 2 + length m.user_id + 4))

hand_shake_frame : Buffer
hand_shake_frame = start MessageType.hand_shake_auth 0

-- Of a PUStatus, by its byte.
status_frame : ℕ → Buffer
status_frame s = put_byte s (start MessageType.status 1)

module _ {F : Type 0} ⦃fb : FloatBytes F⦄ where
  order_single_frame : OrderSingle F → Buffer
  order_single_frame m =
      put_order_single m
        (start MessageType.order_single (4 * 2 + length m.symbol + length m.order_id + 4 + 4 + 1))

  pub execution_frame : MessageType → Execution F → Buffer
  execution_frame t m =
      put_execution m (
        start t
          (4 * 3 + length m.symbol + length m.order_id + length m.exec_id + 4 * 2 + 1 + 4 * 2))

-- What a message of the type holds.
abbrev pub Payload : Type 0 → MessageType → Type 0
Payload F MessageType.reject = RejectMessage
Payload F MessageType.front_to_initiator_auth = AuthFrontToInitiator
Payload F MessageType.initiator_to_front_auth = AuthInitiatorToFront
Payload F MessageType.back_to_initiator_auth = AuthBackToInitiator
Payload F MessageType.initiator_to_back_auth = AuthInitiatorToBack
Payload F MessageType.initiator_to_front_valid_token = InitiatorToFrontValidToken
Payload F MessageType.front_to_back_valid_token = FrontToBackValidToken
Payload F MessageType.back_to_front_valid_token = FrontToBackValidToken
Payload F MessageType.hand_shake_auth = Unit {0}
Payload F MessageType.status = ℕ
Payload F MessageType.logon = LogonMessage
Payload F MessageType.order_single = OrderSingle F
Payload F MessageType.exec_new = Execution F
Payload F MessageType.exec_event = Execution F
Payload F (MessageType.unnamed n) = ⊥

module _ (F : Type 0) ⦃fb : FloatBytes F⦄ where
  -- The helper of each type.
  unfoldable pub frame : (t : MessageType) → Payload F t → Buffer
  unfolding reject_frame auth_front_to_initiator_frame auth_initiator_to_front_frame
      auth_back_to_initiator_frame auth_initiator_to_back_frame initiator_to_front_valid_token_frame
      front_to_back_valid_token_frame back_to_front_valid_token_frame status_frame logon_frame
      order_single_frame execution_frame hand_shake_frame
  frame MessageType.reject m = reject_frame m
  frame MessageType.front_to_initiator_auth m = auth_front_to_initiator_frame m
  frame MessageType.initiator_to_front_auth m = auth_initiator_to_front_frame m
  frame MessageType.back_to_initiator_auth m = auth_back_to_initiator_frame m
  frame MessageType.initiator_to_back_auth m = auth_initiator_to_back_frame m
  frame MessageType.initiator_to_front_valid_token m = initiator_to_front_valid_token_frame m
  frame MessageType.front_to_back_valid_token m = front_to_back_valid_token_frame m
  frame MessageType.back_to_front_valid_token m = back_to_front_valid_token_frame m
  frame MessageType.hand_shake_auth _ = hand_shake_frame
  frame MessageType.status m = status_frame m
  frame MessageType.logon m = logon_frame m
  frame MessageType.order_single m = order_single_frame m
  frame MessageType.exec_new m = execution_frame MessageType.exec_new m
  frame MessageType.exec_event m = execution_frame MessageType.exec_event m
  frame (MessageType.unnamed n) m = elim m [ ]

  -- The operator that reads the type into a message that is there.
  unfoldable pub get_payload : ℕ → (t : MessageType) → Payload F t → Reader (Payload F t)
  get_payload unset MessageType.reject old = get_reject
  get_payload unset MessageType.front_to_initiator_auth old = get_auth_front_to_initiator
  get_payload unset MessageType.initiator_to_front_auth old = get_auth_initiator_to_front
  get_payload unset MessageType.back_to_initiator_auth old = get_auth_back_to_initiator old.port
  get_payload unset MessageType.initiator_to_back_auth old = get_auth_initiator_to_back
  get_payload unset MessageType.initiator_to_front_valid_token old =
      get_initiator_to_front_valid_token old.port
  get_payload unset MessageType.front_to_back_valid_token old = get_front_to_back_valid_token
  get_payload unset MessageType.back_to_front_valid_token old = get_front_to_back_valid_token
  get_payload unset MessageType.hand_shake_auth old = give old
  get_payload unset MessageType.status old = get_byte old
  get_payload unset MessageType.logon old = get_logon old
  get_payload unset MessageType.order_single old = get_order_single unset old
  get_payload unset MessageType.exec_new old = get_execution old
  get_payload unset MessageType.exec_event old = get_execution old
  get_payload unset (MessageType.unnamed n) old = give old
