-- ===== src/Initiator/Handlers.antt =====
-- client/initiator/src/ProcessUnit: `process` of BackHandler.cpp and of FrontHandler.cpp. The calls of the system are functions of
-- the size asked for; the task that hands the message to its session is part of the step.
use fix4_2_protocol.Base.{ℕ, Str, Bool, Option, none, some, List, ◌==◌, if◌then◌else◌}
use fix4_2_protocol.OrderBook.{Outcome, returned, thrown, undefined}
use fix4_2_protocol.Network.Buffer.{Buffer, new_buffer, append, clear, reset}
use fix4_2_protocol.Network.Socket.{pos, eq_int, receive}
use fix4_2_protocol.Ipc.Types.{MessageType, IpcHeader}
use fix4_2_protocol.Ipc.Wire.{byte_of, get_header, get_auth_back_to_initiator}
use fix4_2_protocol.Initiator.Session.{
  Session, Effect, set_backend_socket, received_front, received_back,
}
use fix4_2_protocol.Initiator.Manager.{find_front, find_back, find_key, store_session}

-- The header of a message, and a buffer with what came behind it.
pub data ReadMessage : Type 0 where
  no_message : ReadMessage
  message : IpcHeader → Buffer → ReadMessage

-- The variables of the header are not set before; that the body is whole is not checked.
unfoldable pub read_message : (ℕ → Option (List ℕ)) → (ℕ → Option (List ℕ)) → ℕ → ℕ → ReadMessage
unfolding receive append clear
read_message recv recv_body unset before =
    let (bytes, error) = receive (recv 5) in
    let (b, h) = get_header unset before (append bytes new_buffer) in
    let (bytes', _) = receive (recv_body h.body_size) in
    if eq_int error (pos 5) then message h (append bytes' (clear b)) else no_message

-- The sessions after a message, the session that it came to, what that did, and the counter of the tokens.
pub record Joined : Type 0 where
  pub sessions : List Session
  pub session : Session
  pub effects : List Effect
  pub counter : ℕ

unfoldable pub pass_back :
    ℕ → ℕ → IpcHeader → Buffer → Option Session → List Session → Outcome Joined
unfolding received_back store_session
pass_back counter unset h b none ss = undefined
pass_back counter unset h b (some s) ss =
    let (s', es, next) = received_back counter unset h b s in
    returned (record { sessions = store_session s' ss; session = s'; effects = es; counter = next })

-- A session that is found by its key gets the socket; a missing session is a null pointer.
unfoldable pub join_back :
    ℕ → ℕ → ℕ → IpcHeader → Buffer → Outcome (Option Session) → List Session → Outcome Joined
unfolding pass_back set_backend_socket reset
join_back counter unset socket h b (returned none) ss = undefined
join_back counter unset socket h b (returned (some s)) ss =
    pass_back counter unset h (reset b) (some (set_backend_socket socket s)) ss
join_back counter unset socket h b (thrown m) ss = thrown m
join_back counter unset socket h b undefined ss = undefined

unfoldable pub process_back : ℕ → ℕ → ℕ → ReadMessage → List Session → Outcome (Option Joined)
unfolding join_back pass_back find_key find_back
process_back counter unset socket no_message ss = returned none
process_back counter unset socket (message h b) ss =
    let (b', auth) = get_auth_back_to_initiator unset b in
    let joined = join_back counter unset socket h b' (find_key auth.apikey ss) ss in
    let passed = pass_back counter unset h b (find_back socket ss) ss in
    elim (if byte_of h.msg_type == byte_of MessageType.back_to_initiator_auth
      then joined
      else passed) [
        | returned st ↦ returned (some st)
        | thrown m ↦ thrown m
        | undefined ↦ undefined
      ]

-- What becomes of a front end's message: its session goes on, or is to be removed.
pub data FrontStep : Type 0 where
  goes_on : Joined → FrontStep
  to_remove : Session → FrontStep

unfoldable pub process_front :
    (Str → Str → Option (Bool × Str)) → ℕ → ℕ → ReadMessage → List Session → Outcome FrontStep
unfolding received_front find_front store_session
process_front row counter socket m ss = elim (find_front socket ss) [
  | none ↦ undefined
  | some s ↦ elim m [
    | no_message ↦ returned (to_remove s)
    | message h b ↦
        let (s', es) = received_front row h b s in
        returned (
          goes_on (record {
            sessions = store_session s' ss;
            session = s';
            effects = es;
            counter = counter;
          }))
  ]
]
