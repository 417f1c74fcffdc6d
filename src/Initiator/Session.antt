-- ===== src/Initiator/Session.antt =====
-- client/initiator/src/Session.cpp. Sockets are numbers; the answer of the database is an argument, and the update of its table a
-- mark of the result. The start of the back end's process is left out.
use fix4_2_protocol.Base.{
  ℕ, Str, codes, Bool, Option, none, some, List, [], ◌∷◌, ◌==◌, if◌then◌else◌, ◌++◌,
}
use fix4_2_protocol.Message.Convert.Unsigned.{to_chars}
use fix4_2_protocol.OrderBook.{Outcome, returned, thrown}
use fix4_2_protocol.Network.Buffer.{Buffer}
use fix4_2_protocol.Ipc.Types.{MessageType, IpcHeader}
use fix4_2_protocol.Ipc.Wire.{byte_of, get_auth_front_to_initiator, get_auth_back_to_initiator}
use fix4_2_protocol.Ipc.Helper.{
  auth_initiator_to_front_frame, auth_initiator_to_back_frame, initiator_to_front_valid_token_frame,
  reject_frame,
}

-- `m_frontend` and `m_backend`; `id` is the session's own.
pub record Session : Type 0 where
  pub id : ℕ
  pub apikey : Option Str
  pub name : Str
  pub front_socket : ℕ
  pub token : Option Str
  pub back_socket : Option ℕ

abbrev pub fresh_session : ℕ → ℕ → Session
fresh_session id front = record {
  id = id;
  apikey = none;
  name = [];
  front_socket = front;
  token = none;
  back_socket = none;
}

-- What a session does besides: messages to the front end and to the back end, and the mark of a user as connected.
pub data Effect : Type 0 where
  to_front : Buffer → Effect
  to_back : Buffer → Effect
  set_connected : Str → Str → Effect

unfoldable pub set_backend_socket : ℕ → Session → Session
set_backend_socket socket s = record s { back_socket = some socket }

-- `getApiKey`
unfoldable pub get_api_key : Session → Outcome Str
get_api_key s = elim s.apikey [ none ↦ thrown (codes "Api key not set") | some k ↦ returned k ]

-- `GenerateToken`: the token, and the static counter after.
unfoldable pub generate_token : ℕ → Str × ℕ
unfolding to_chars
generate_token counter = (to_chars counter, counter)

-- `login`: the row that the database gives is whether the user is connected, and the name of the server.
unfoldable pub session_login : Str → Str → Option (Bool × Str) → Option Str × List Effect
session_login apikey name none =
    (none, to_front (reject_frame (record { message = codes "No user found" })) ∷ [])
session_login apikey name (some (connected, server)) =
    if connected
    then (none, to_front (reject_frame (record { message = codes "User already logged in" })) ∷ [])
    else (some server, set_connected apikey name ∷ [])

unfoldable pub welcome : Str → Option Str × List Effect → Session → Session × List Effect
welcome apikey (none, es) s = (s, es)
welcome apikey (some server, es) s = (
  record s { name = server; apikey = some apikey },
  es ++ to_front (auth_initiator_to_front_frame (record { name = server })) ∷ [],
)

-- `identifyFrontend`; `row` is the database's answer for a key and a name.
unfoldable pub identify_frontend :
    (Str → Str → Option (Bool × Str)) → Buffer → Session → Session × List Effect
unfolding session_login welcome
identify_frontend row b s =
    let (_, auth) = get_auth_front_to_initiator b in
    elim s.apikey [
      | some k ↦ (s, [])
      | none ↦
          welcome auth.apikey (session_login auth.apikey auth.name (row auth.apikey auth.name)) s
    ]

-- `identifyBackend`, with the counter of the tokens; `unset` is what the port holds before.
unfoldable pub identify_backend : ℕ → ℕ → Buffer → Session → Session × List Effect × ℕ
unfolding generate_token
identify_backend counter unset b s =
    let (_, auth) = get_auth_back_to_initiator unset b in
    let (given, next) = generate_token counter in
    (
      record s { token = some given },
      to_back (auth_initiator_to_back_frame (record { token = given; apikey = auth.apikey }))
          ∷ to_front
              (initiator_to_front_valid_token_frame (record { token = given; port = auth.port }))
          ∷ [],
      next,
    )

-- `received` of each side.
unfoldable pub received_front :
    (Str → Str → Option (Bool × Str)) → IpcHeader → Buffer → Session → Session × List Effect
unfolding identify_frontend
received_front row h b s =
    if byte_of h.msg_type == byte_of MessageType.front_to_initiator_auth
    then identify_frontend row b s
    else (s, [])

unfoldable pub received_back : ℕ → ℕ → IpcHeader → Buffer → Session → Session × List Effect × ℕ
unfolding identify_backend
received_back counter unset h b s =
    if byte_of h.msg_type == byte_of MessageType.back_to_initiator_auth
    then identify_backend counter unset b s
    else (s, [], counter)
