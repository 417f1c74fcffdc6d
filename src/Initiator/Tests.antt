-- ===== src/Initiator/Tests.antt =====
-- A back end that joins its session, and each theorem at a concrete input.
use fix4_2_protocol.Base.{
  true, List, str_eq, ℕ, Str, codes, Bool, none, some, [], ◌∷◌, ◌≡◌, ◌≢◌, refl, arith,
}
use fix4_2_protocol.OrderBook.{returned, thrown}
use fix4_2_protocol.Network.Buffer.{Buffer, get_text, first, skip, word_bytes}
use fix4_2_protocol.Network.Reading.{◌>>=◌, text_bytes}
use fix4_2_protocol.Ipc.Types.{MessageType, IpcHeader}
use fix4_2_protocol.Ipc.Wire.{byte_of, get_auth_back_to_initiator}
use fix4_2_protocol.Ipc.Helper.{frame}
use fix4_2_protocol.Ipc.Tests.{coin, coin_ok, order, auth, sends_header, sends_body}
use fix4_2_protocol.Back.Front.{new_front, initiator_on_receive}
use fix4_2_protocol.Back.Front.Gate.{front_run}
use fix4_2_protocol.Back.Delivery.{Message, frames}
use fix4_2_protocol.Initiator.Session.{Session, generate_token}
use fix4_2_protocol.Initiator.Manager.{store_session}
use fix4_2_protocol.Initiator.Handlers.{message, Joined, read_message, process_back}
use fix4_2_protocol.Initiator.Joining.{process_back-thrown, process_back-joined, joined}
use fix4_2_protocol.Initiator.Token.{front_run-any_token}

abbrev keyed : Str → ℕ → Session
keyed k id = record {
  id = id;
  apikey = some k;
  name = codes "server";
  front_socket = id;
  token = none;
  back_socket = none;
}

abbrev unkeyed : Session
unkeyed = record {
  id = 2;
  apikey = none;
  name = [];
  front_socket = 2;
  token = none;
  back_socket = none;
}

other_key : codes "z" ≢ codes "k"
other_key h = ground arith

process_back-thrown_example :
    process_back 0 1 9
      (read_message sends_header sends_body 1 2)
      (keyed (codes "z") 1 ∷ unkeyed ∷ keyed (codes "k") 3 ∷ [])
    ≡ thrown (codes "Api key not set")
unfolding byte_of word_bytes text_bytes
process_back-thrown_example =
    process_back-thrown Bool coin_ok 0 1 2 sends_header sends_body auth 9 (omega arith)
      (omega arith) refl refl (keyed (codes "z") 1 ∷ []) (keyed (codes "k") 3 ∷ []) unkeyed
      ((codes "z", refl, other_key), tt) refl

process_back-joined_example :
    process_back 0 1 9
      (read_message sends_header sends_body 1 2)
      (keyed (codes "z") 1 ∷ keyed (codes "k") 3 ∷ [])
    ≡ returned (
        some
          (joined 0 9 auth (keyed (codes "k") 3) (keyed (codes "z") 1 ∷ keyed (codes "k") 3 ∷ [])))
unfolding byte_of word_bytes text_bytes
process_back-joined_example =
    process_back-joined Bool coin_ok 0 1 2 sends_header sends_body auth 9 (omega arith)
      (omega arith) refl refl (keyed (codes "z") 1 ∷ []) [] (keyed (codes "k") 3)
      ((codes "z", refl, other_key), tt) refl

-- The log on of a back end with the key k, and with the key z.
abbrev log_on : IpcHeader
log_on = record { msg_type = MessageType.back_to_initiator_auth; body_size = 9 }

abbrev log_on_body : ℕ → Buffer
log_on_body key = record {
  valid = true;
  read = 0;
  bytes = 0 ∷ 0 ∷ 0 ∷ 1 ∷ key ∷ 0 ∷ 0 ∷ 1 ∷ 2 ∷ [];
}

abbrev two_sessions : List Session
two_sessions = keyed (codes "z") 1 ∷ keyed (codes "k") 3 ∷ []

abbrev first_joined : Joined
first_joined = joined 0 9 auth (keyed (codes "k") 3) two_sessions

abbrev second_joined : Joined
second_joined =
    joined 0 8 (record { apikey = codes "z"; port = 258 }) (keyed (codes "z") 1)
      first_joined.sessions

first_joins :
    process_back 0 1 9 (message log_on (log_on_body 107)) two_sessions
    ≡ returned (some first_joined)
unfolding process_back generate_token str_eq byte_of get_auth_back_to_initiator ◌>>=◌ get_text first
    skip
first_joins = refl

second_joins :
    process_back first_joined.counter 1 8 (message log_on (log_on_body 122)) first_joined.sessions
    ≡ returned (some second_joined)
unfolding process_back generate_token str_eq store_session byte_of get_auth_back_to_initiator ◌>>=◌
    get_text first skip
second_joins = refl

abbrev one_order : Message Bool coin_ok
one_order = record { msg_type = MessageType.order_single; payload = order; fits = omega arith }

front_run-any_token_example :
    (front_run 1 2
      (frame Bool MessageType.front_to_back_valid_token (record { token = codes "0" })
        ∷ frame Bool MessageType.hand_shake_auth tt
        ∷ frames Bool coin_ok (one_order ∷ []))
      (initiator_on_receive 1 2
        (frame Bool MessageType.initiator_to_back_auth
          (record { token = codes "0"; apikey = codes "k" }))
        new_front)).output
    ≡ frames Bool coin_ok (one_order ∷ [])
unfolding generate_token
front_run-any_token_example =
    front_run-any_token Bool coin_ok 1 2 0 9 8 log_on log_on (log_on_body 107) (log_on_body 122)
      two_sessions first_joined.sessions first_joined second_joined (codes "0") (codes "0")
      (codes "k") (one_order ∷ []) refl refl first_joins second_joins refl refl (omega arith)
