-- ===== src/Ipc/Wire.antt =====
-- client/shared/IPC: MessageType.cpp, IpcHeader.cpp and the operators of src/Message/*.cpp. A reader takes the value
-- that is there before: a field of a number keeps it where the buffer is too short.
use fix4_2_protocol.Base.{ℕ, if◌then◌else◌, ◌==◌}
use fix4_2_protocol.Network.Buffer.{
  Buffer, FloatBytes, put_byte, put_word, put_text, put_float, get_byte, get_word, get_text,
  get_float,
}
use fix4_2_protocol.Network.Reading.{Reader, give, ◌>>=◌}
use fix4_2_protocol.Ipc.Types.{
  MessageType, reject, front_to_initiator_auth, initiator_to_front_auth, back_to_initiator_auth,
  initiator_to_back_auth, initiator_to_front_valid_token, front_to_back_valid_token,
  back_to_front_valid_token, hand_shake_auth, status, logon, order_single, exec_new, exec_event,
  unnamed, IpcHeader, AuthFrontToInitiator, AuthInitiatorToFront, AuthInitiatorToBack,
  AuthBackToInitiator, InitiatorToFrontValidToken, FrontToBackValidToken, RejectMessage,
  LogonMessage, OrderSingle, Execution,
}

unfoldable pub byte_of : MessageType → ℕ
byte_of reject = 0
byte_of front_to_initiator_auth = 1
byte_of initiator_to_front_auth = 2
byte_of back_to_initiator_auth = 3
byte_of initiator_to_back_auth = 4
byte_of initiator_to_front_valid_token = 5
byte_of front_to_back_valid_token = 6
byte_of back_to_front_valid_token = 7
byte_of hand_shake_auth = 8
byte_of status = 9
byte_of logon = 10
byte_of order_single = 11
byte_of exec_new = 12
byte_of exec_event = 13
byte_of (unnamed n) = n

unfoldable pub type_of : ℕ → MessageType
type_of n =
    if n == 0
    then reject
    else if n == 1
    then front_to_initiator_auth
    else if n == 2
    then initiator_to_front_auth
    else if n == 3
    then back_to_initiator_auth
    else if n == 4
    then initiator_to_back_auth
    else if n == 5
    then initiator_to_front_valid_token
    else if n == 6
    then front_to_back_valid_token
    else if n == 7
    then back_to_front_valid_token
    else if n == 8
    then hand_shake_auth
    else if n == 9
    then status
    else if n == 10
    then logon
    else if n == 11
    then order_single
    else if n == 12
    then exec_new
    else if n == 13
    then exec_event
    else unnamed n

unfoldable pub put_header : IpcHeader → Buffer → Buffer
unfolding byte_of
put_header h b = put_word h.body_size (put_byte (byte_of h.msg_type) b)

-- The byte before the read is a local variable that is not set.
unfoldable pub get_header : ℕ → ℕ → Reader IpcHeader
unfolding type_of
get_header unset size = do
  n ← get_byte unset
  s ← get_word size
  give (record { msg_type = type_of n; body_size = s })

unfoldable pub put_auth_front_to_initiator : AuthFrontToInitiator → Buffer → Buffer
put_auth_front_to_initiator m b = put_text m.name (put_text m.apikey b)

unfoldable pub get_auth_front_to_initiator : Reader AuthFrontToInitiator
get_auth_front_to_initiator = do a ← get_text; n ← get_text; give (record { apikey = a; name = n })

unfoldable pub put_auth_initiator_to_front : AuthInitiatorToFront → Buffer → Buffer
put_auth_initiator_to_front m b = put_text m.name b

unfoldable pub get_auth_initiator_to_front : Reader AuthInitiatorToFront
get_auth_initiator_to_front = do n ← get_text; give (record { name = n })

unfoldable pub put_auth_initiator_to_back : AuthInitiatorToBack → Buffer → Buffer
put_auth_initiator_to_back m b = put_text m.apikey (put_text m.token b)

unfoldable pub get_auth_initiator_to_back : Reader AuthInitiatorToBack
get_auth_initiator_to_back = do t ← get_text; a ← get_text; give (record { token = t; apikey = a })

unfoldable pub put_auth_back_to_initiator : AuthBackToInitiator → Buffer → Buffer
put_auth_back_to_initiator m b = put_word m.port (put_text m.apikey b)

unfoldable pub get_auth_back_to_initiator : ℕ → Reader AuthBackToInitiator
get_auth_back_to_initiator old = do
  a ← get_text
  p ← get_word old
  give (record { apikey = a; port = p })

unfoldable pub put_initiator_to_front_valid_token : InitiatorToFrontValidToken → Buffer → Buffer
put_initiator_to_front_valid_token m b = put_word m.port (put_text m.token b)

unfoldable pub get_initiator_to_front_valid_token : ℕ → Reader InitiatorToFrontValidToken
get_initiator_to_front_valid_token old = do
  t ← get_text
  p ← get_word old
  give (record { token = t; port = p })

unfoldable pub put_front_to_back_valid_token : FrontToBackValidToken → Buffer → Buffer
put_front_to_back_valid_token m b = put_text m.token b

unfoldable pub get_front_to_back_valid_token : Reader FrontToBackValidToken
get_front_to_back_valid_token = do t ← get_text; give (record { token = t })

unfoldable pub put_reject : RejectMessage → Buffer → Buffer
put_reject m b = put_text m.message b

unfoldable pub get_reject : Reader RejectMessage
get_reject = do t ← get_text; give (record { message = t })

unfoldable pub put_logon : LogonMessage → Buffer → Buffer
put_logon m b = put_word m.heart_beat (put_word m.seq_num (put_text m.user_id b))

unfoldable pub get_logon : LogonMessage → Reader LogonMessage
get_logon old = do
  u ← get_text
  s ← get_word old.seq_num
  h ← get_word old.heart_beat
  give (record { user_id = u; seq_num = s; heart_beat = h })

module _ {F : Type 0} ⦃fb : FloatBytes F⦄ where
  unfoldable pub put_order_single : OrderSingle F → Buffer → Buffer
  put_order_single m b =
      put_byte m.side
        (put_float m.quantity (put_float m.price (put_text m.order_id (put_text m.symbol b))))

  unfoldable pub get_order_single : ℕ → OrderSingle F → Reader (OrderSingle F)
  get_order_single unset old = do
    s ← get_text
    i ← get_text
    p ← get_float old.price
    q ← get_float old.quantity
    t ← get_byte unset
    give (record { symbol = s; order_id = i; price = p; quantity = q; side = t })

  unfoldable pub put_execution : Execution F → Buffer → Buffer
  put_execution m b =
      let b' = put_text m.exec_id (put_text m.order_id (put_text m.symbol b)) in
      put_float m.remain_qty
        (put_float m.quantity (put_byte m.side (put_float m.price (put_float m.avg_price b'))))

  -- The side is read into a variable that is 0 before.
  unfoldable pub get_execution : Execution F → Reader (Execution F)
  get_execution old = do
    s ← get_text
    i ← get_text
    e ← get_text
    a ← get_float old.avg_price
    p ← get_float old.price
    t ← get_byte 0
    q ← get_float old.quantity
    r ← get_float old.remain_qty
    give (record {
      symbol = s;
      order_id = i;
      exec_id = e;
      avg_price = a;
      price = p;
      side = t;
      quantity = q;
      remain_qty = r;
    })
