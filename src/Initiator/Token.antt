-- ===== src/Initiator/Token.antt =====
-- The tokens that client/initiator gives, at the back ends that are told them and the front ends that show them.
use fix4_2_protocol.Base.{ℕ, Str, some, List, ◌∷◌, ◌+◌, ◌<◌, ◌≡◌, refl, sym, length, arith}
use fix4_2_protocol.OrderBook.{returned}
use fix4_2_protocol.Network.Buffer.{Buffer, FloatBytes, IsFaithful}
use fix4_2_protocol.Ipc.Types.{MessageType, IpcHeader, AuthInitiatorToBack}
use fix4_2_protocol.Ipc.Wire.{byte_of}
use fix4_2_protocol.Ipc.Helper.{frame, get_payload}
use fix4_2_protocol.Ipc.Framing.{size, pieces}
use fix4_2_protocol.Ipc.Exchange.{frame-read_back}
use fix4_2_protocol.Initiator.Session.{
  Session, generate_token, received_back, identify_backend, set_backend_socket,
}
use fix4_2_protocol.Initiator.Handlers.{message, Joined, pass_back, join_back, process_back}
use fix4_2_protocol.Back.Front.{new_front, setup_token, initiator_on_receive}
use fix4_2_protocol.Back.Front.Gate.{front_run}
use fix4_2_protocol.Back.Delivery.{Message, frames, front_run-frames}

-- A back end that joins gets the token of the counter, and leaves the counter to the next.
token_given :
    (counter unset socket : ℕ) (h : IpcHeader) (b : Buffer) (ss : List Session) (j : Joined)
    → h.msg_type ≡ MessageType.back_to_initiator_auth
    → process_back counter unset socket (message h b) ss ≡ returned (some j)
    → (j.session.token ≡ some (generate_token counter).0) × (j.counter ≡ counter)
unfolding process_back join_back pass_back received_back identify_backend set_backend_socket byte_of
    generate_token
token_given counter unset socket h b ss j k e = (ground arith, ground arith)

same_token :
    (token token' : Str) (j j' : Joined) (given : Str)
    → j.session.token ≡ some given
    → j'.session.token ≡ some given
    → j.session.token ≡ some token
    → j'.session.token ≡ some token'
    → token ≡ token'
same_token token token' j j' given a b c d = cc

module _ (F : Type 0) ⦃fb : FloatBytes F⦄ (ok : IsFaithful fb) (unset before : ℕ) where
  told_token :
      (m : AuthInitiatorToBack)
      → size {F = F} (pieces MessageType.initiator_to_back_auth m) < 4294967296
      → initiator_on_receive unset before (frame F MessageType.initiator_to_back_auth m) new_front
        ≡ setup_token m.token new_front
  unfolding initiator_on_receive get_payload byte_of
  told_token m h =
      let (behind, after, e, e', _) =
        frame-read_back ok MessageType.initiator_to_back_auth m m unset before h tt in
      rw (e, e') refl

  -- Two back ends join the initiator, the second with the counter of the tokens as the first left it, whatever the sessions
  -- are, and each session gets a token, the first shorter than 2^32 - 8 with its key. Then the back end that is told the token of the first session hands on every
  -- message of a front end that shows the token of the second.
  pub front_run-any_token :
      (counter socket socket' : ℕ) (h h' : IpcHeader) (b b' : Buffer) (ss ss' : List Session)
      (j j' : Joined) (token token' apikey : Str) (ms : List (Message F ok))
      → h.msg_type ≡ MessageType.back_to_initiator_auth
      → h'.msg_type ≡ MessageType.back_to_initiator_auth
      → process_back counter unset socket (message h b) ss ≡ returned (some j)
      → process_back j.counter unset socket' (message h' b') ss' ≡ returned (some j')
      → j.session.token ≡ some token
      → j'.session.token ≡ some token'
      → length token + length apikey + 8 < 4294967296
      → (front_run unset before
          (frame F MessageType.front_to_back_valid_token (record { token = token' })
            ∷ frame F MessageType.hand_shake_auth tt
            ∷ frames F ok ms)
          (initiator_on_receive unset before
            (frame F MessageType.initiator_to_back_auth (record { token = token; apikey = apikey }))
            new_front)).output
        ≡ frames F ok ms
  front_run-any_token counter socket socket' h h' b b' ss ss' j j' token token' apikey ms k k' e e'
        t t' small =
      let (given, next) = token_given counter unset socket h b ss j k e in
      let (given', next') = token_given j.counter unset socket' h' b' ss' j' k' e' in
      let same : token ≡ token' =
        same_token token token' j j' (generate_token counter).0 given (rw next at given') t t' in
      rw (sym same, told_token (record { token = token; apikey = apikey }) (omega arith))
        (front_run-frames F ok unset before token ms (omega arith))
