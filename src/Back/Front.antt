-- ===== src/Back/Front.antt =====
-- client/back/src/FrontManager.cpp: which buffers of the front end are handed on, and `onReceive` of InitiatorManager.cpp.
pub mod Gate
use fix4_2_protocol.Base.{
  ℕ, Str, codes, str_eq, Bool, true, false, Option, none, some, List, [], ◌∷◌, ◌++◌, ◌==◌,
  if◌then◌else◌,
}
use fix4_2_protocol.Network.Buffer.{Buffer, reset}
use fix4_2_protocol.Ipc.Types.{MessageType, IpcHeader}
use fix4_2_protocol.Ipc.Wire.{
  get_header, get_front_to_back_valid_token, get_auth_initiator_to_back, byte_of,
}
use fix4_2_protocol.Ipc.Helper.{reject_frame, back_to_front_valid_token_frame}

-- `m_auth`, `m_handshake`, `m_token`, the queue of messages, and what the socket is given.
pub record Front : Type 0 where
  pub auth : Bool
  pub handshake : Bool
  pub token : Option Str
  pub output : List Buffer
  pub sent : List Buffer

abbrev pub new_front : Front
new_front = record { auth = false; handshake = false; token = none; output = []; sent = [] }

-- `setupToken`, but for the socket.
unfoldable pub setup_token : Str → Front → Front
setup_token t f = record f { token = some t }

-- `send` of the base class.
unfoldable pub send : Buffer → Front → Front
send b f = record f { sent = f.sent ++ b ∷ [] }

unfoldable pub refuse : Str → Front → Front
unfolding send
refuse text f = send (reject_frame (record { message = text })) f

abbrev pub is_type : MessageType → MessageType → Bool
is_type t u = byte_of t == byte_of u

-- The comparison of tokens in `authValidation`.
unfoldable pub check_token : Str → Buffer → Front → Front
unfolding send refuse
check_token t b f =
    let (_, m) = get_front_to_back_valid_token b in
    if str_eq m.token t
    then record (send (back_to_front_valid_token_frame (record { token = m.token })) f) {
      auth = true;
    }
    else refuse (codes "Invalid token provided, shuting down connection and process") f

unfoldable pub authenticate : MessageType → Buffer → Front → Front
unfolding check_token refuse
authenticate t b f =
    if is_type t MessageType.front_to_back_valid_token
    then elim f.token [
      | some token ↦ check_token token b f
      | none ↦ refuse (codes "Client is didn't set token before front to back validation") f
    ]
    else refuse (codes "Client is missing token authentication to processed") f

unfoldable pub shake_hands : MessageType → Front → Front
unfolding refuse
shake_hands t f =
    if is_type t MessageType.hand_shake_auth
    then record f { handshake = true }
    else refuse (codes "Client is missing handshake to processed") f

-- `authValidation`: the buffer, behind its header or reset, the new state, and whether the message is taken. The variables of
-- the header are not set before.
unfoldable pub auth_validation : ℕ → ℕ → Buffer → Front → Buffer × Front × Bool
unfolding authenticate shake_hands reset
auth_validation unset before b f =
    let (b', h) = get_header unset before b in
    if f.auth
    then (if f.handshake then (reset b', f, false) else (b', shake_hands h.msg_type f, true))
    else (b', authenticate h.msg_type b' f, true)

-- `onReceive`
unfoldable pub front_on_receive : ℕ → ℕ → Buffer → Front → Front
unfolding auth_validation
front_on_receive unset before b f =
    let (b', f', taken) = auth_validation unset before b f in
    if taken then f' else record f' { output = f'.output ++ b' ∷ [] }

-- `onReceive` of the initiator's messages.
unfoldable pub initiator_on_receive : ℕ → ℕ → Buffer → Front → Front
unfolding setup_token
initiator_on_receive unset before b f =
    let (b', h) = get_header unset before b in
    let (_, m) = get_auth_initiator_to_back b' in
    if is_type h.msg_type MessageType.initiator_to_back_auth then setup_token m.token f else f
