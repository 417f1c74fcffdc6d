-- ===== src/Initiator/Joining.antt =====
-- What becomes of a back end that joins its session.
use fix4_2_protocol.Base.{
  ℕ, Str, codes, str_eq_iff, true, Option, none, some, List, [], ◌∷◌, ◌++◌, append-nil, ◌/◌, ◌%◌,
  ◌<◌, ◌≡◌, ◌≢◌, refl, sym, ap, ◌∙◌, arith,
}
use fix4_2_protocol.OrderBook.{returned, thrown}
use fix4_2_protocol.Network.Buffer.{
  Buffer, FloatBytes, IsFaithful, append, clear, reset, word_bytes, skip, number, get, check_size,
  get_text, get_word,
}
use fix4_2_protocol.Network.Socket.{receive}
use fix4_2_protocol.Network.Reading.{IsAt, ◌>>=◌}
use fix4_2_protocol.Ipc.Types.{MessageType, IpcHeader, AuthBackToInitiator}
use fix4_2_protocol.Ipc.Wire.{byte_of, type_of, get_auth_back_to_initiator}
use fix4_2_protocol.Ipc.Helper.{
  get_payload, auth_initiator_to_back_frame, initiator_to_front_valid_token_frame,
}
use fix4_2_protocol.Ipc.Framing.{size, pieces, bytes_of, length-bytes_of}
use fix4_2_protocol.Ipc.Exchange.{get_payload-Reads}
use fix4_2_protocol.Ipc.Transport.{header_bytes, number-word_bytes}
use fix4_2_protocol.Initiator.Session.{
  Session, to_front, to_back, get_api_key, generate_token, received_back, identify_backend,
  set_backend_socket,
}
use fix4_2_protocol.Initiator.Manager.{find_key, found_key, store_session}
use fix4_2_protocol.Initiator.Handlers.{
  message, read_message, Joined, pass_back, join_back, process_back,
}

read_message-framed :
    (recv recv_body : ℕ → Option (List ℕ)) (unset before a n : ℕ) (bs : List ℕ)
    → n < 4294967296
    → recv 5 ≡ some (a ∷ word_bytes n)
    → recv_body n ≡ some bs
    → read_message recv recv_body unset before
      ≡ message
          (record { msg_type = type_of a; body_size = n })
          (record { valid = true; read = 0; bytes = bs })
unfolding read_message receive append clear word_bytes
read_message-framed recv recv_body unset before a n bs h p q =
    let e = number-word_bytes n h in
    let f =
      header_bytes a (n / 16777216 % 256) (n / 65536 % 256) (n / 256 % 256) (n % 256) unset
        before in
    rw (p, f, e, q) refl

-- The key of a session is another.
abbrev pub HasOtherKey : Str → List Session → Type 0
HasOtherKey k [] = Unit {0}
HasOtherKey k (s ∷ ss) = ((j : Str) × (s.apikey ≡ some j) × (j ≢ k)) × HasOtherKey k ss

find_key-thrown :
    (k : Str) (xs ys : List Session) (s : Session)
    → HasOtherKey k xs
    → s.apikey ≡ none
    → find_key k (xs ++ s ∷ ys) ≡ thrown (codes "Api key not set")
unfolding find_key found_key get_api_key
find_key-thrown k [] ys s h e = ground arith
find_key-thrown k (x ∷ xs) ys s ((j, e1, n), h) e =
    ground (arith, str_eq_iff j k, find_key-thrown k xs ys s h e)

find_key-found :
    (k : Str) (xs ys : List Session) (s : Session)
    → HasOtherKey k xs
    → s.apikey ≡ some k
    → find_key k (xs ++ s ∷ ys) ≡ returned (some s)
unfolding find_key found_key get_api_key
find_key-found k [] ys s h e = ground (arith, str_eq_iff k k)
find_key-found k (x ∷ xs) ys s ((j, e1, n), h) e =
    ground (arith, str_eq_iff j k, find_key-found k xs ys s h e)

-- A log on in a buffer, where the search for the key has an end.
thrown_at :
    (counter unset socket : ℕ) (h : IpcHeader) (b0 b : Buffer) (m : AuthBackToInitiator)
    (ss : List Session) (t : Str)
    → h.msg_type ≡ MessageType.back_to_initiator_auth
    → get_auth_back_to_initiator unset b0 ≡ (b, m)
    → find_key m.apikey ss ≡ thrown t
    → process_back counter unset socket (message h b0) ss ≡ thrown t
unfolding process_back join_back byte_of
thrown_at counter unset socket h b0 b m ss t k e f = ground arith

-- What joining makes of a session.
abbrev pub joined : ℕ → ℕ → AuthBackToInitiator → Session → List Session → Joined
joined counter socket m s ss =
    let t = record s { back_socket = some socket; token = some (generate_token counter).0 } in
    record {
      sessions = store_session t ss;
      session = t;
      effects =
          to_back (
            auth_initiator_to_back_frame
              (record { token = (generate_token counter).0; apikey = m.apikey }))
          ∷ to_front (
              initiator_to_front_valid_token_frame
                (record { token = (generate_token counter).0; port = m.port }))
          ∷ [];
      counter = (generate_token counter).1;
    }

joined_at :
    (counter unset socket : ℕ) (h : IpcHeader) (b0 b : Buffer) (m : AuthBackToInitiator)
    (s : Session) (ss : List Session)
    → h.msg_type ≡ MessageType.back_to_initiator_auth
    → get_auth_back_to_initiator unset b0 ≡ (b, m)
    → reset b ≡ b0
    → find_key m.apikey ss ≡ returned (some s)
    → process_back counter unset socket (message h b0) ss
      ≡ returned (some (joined counter socket m s ss))
unfolding process_back join_back pass_back received_back identify_backend set_backend_socket byte_of
joined_at counter unset socket h b0 b m s ss k e r f = ground arith

-- The buffer of a body.
abbrev body_buffer : List ℕ → Buffer
body_buffer bs = record { valid = true; read = 0; bytes = bs }

get-bytes :
    {A : Type 0} (n : ℕ) (value : List ℕ → A) (old : A) (b : Buffer)
    → (get n value old b).0.bytes ≡ b.bytes
unfolding get check_size
get-bytes n value old b = ground arith

-- A read leaves the bytes.
auth_bytes : (unset : ℕ) (b : Buffer) → (get_auth_back_to_initiator unset b).0.bytes ≡ b.bytes
unfolding get_auth_back_to_initiator get_text get_word ◌>>=◌
auth_bytes unset b =
    let (b1, n) = get 4 (number 0) 0 b in
    let one = get-bytes 4 (number 0) 0 b in
    let two = get-bytes n (λ s. s) [] b1 in
    let (b2, s) = get n (λ s. s) [] b1 in
    let three = get-bytes 4 (number 0) unset b2 in
    let four = get-bytes 4 (number 0) unset b1 in ground arith

module _ (F : Type 0) ⦃fb : FloatBytes F⦄ (ok : IsFaithful fb) (counter unset before : ℕ) where
  auth_read :
      (m : AuthBackToInitiator)
      → size {F = F} (pieces MessageType.back_to_initiator_auth m) < 4294967296
      → m.port < 4294967296
      → (b : Buffer) × (get_auth_back_to_initiator unset
            (body_buffer (bytes_of {F = F} (pieces MessageType.back_to_initiator_auth m)))
          ≡ (b, m))
        × (reset b ≡ body_buffer (bytes_of {F = F} (pieces MessageType.back_to_initiator_auth m)))
  unfolding get_payload skip reset
  auth_read m h w =
      let bs = bytes_of {F = F} (pieces MessageType.back_to_initiator_auth m) in
      let len = length-bytes_of ok (pieces MessageType.back_to_initiator_auth m) in
      let at : IsAt (body_buffer bs) (bs ++ []) =
        rw (append-nil bs)
          (record { is_valid = refl; left = refl; within = omega arith; small = omega arith }) in
      let (b, e, here) =
        get_payload-Reads ok unset MessageType.back_to_initiator_auth
          (record { apikey = []; port = unset }) m h (w, tt) (body_buffer bs) [] at in
      let kept = auth_bytes unset (body_buffer bs) in
      let same : b.bytes ≡ bs =
        ap (λ (t : Buffer × AuthBackToInitiator). t.0.bytes) (sym e) ∙ kept in
      (b, e, ground (arith, here.is_valid))

  -- Where the frame of a back end's log on arrives.
  module _ (recv recv_body : ℕ → Option (List ℕ)) (m : AuthBackToInitiator) (socket : ℕ)
      (fits : size {F = F} (pieces MessageType.back_to_initiator_auth m) < 4294967296)
      (port_fits : m.port < 4294967296)
      (head : recv 5
        ≡ some (
            byte_of MessageType.back_to_initiator_auth
            ∷ word_bytes (size {F = F} (pieces MessageType.back_to_initiator_auth m))))
      (tail : recv_body (size {F = F} (pieces MessageType.back_to_initiator_auth m))
        ≡ some (bytes_of {F = F} (pieces MessageType.back_to_initiator_auth m)))
      (xs ys : List Session) (s : Session) (others : HasOtherKey m.apikey xs) where
    -- A back end whose session stands behind one that has no key, none before that having its key: the search for the key throws, and
    -- the thread of the handler ends.
    pub process_back-thrown :
        s.apikey ≡ none
        → process_back counter unset socket
            (read_message recv recv_body unset before)
            (xs ++ s ∷ ys)
          ≡ thrown (codes "Api key not set")
    unfolding type_of byte_of
    process_back-thrown e =
        let (b, read, _) = auth_read m fits port_fits in
        let came = read_message-framed recv recv_body unset before 3 _ _ fits head tail in
        rw came (
          thrown_at counter unset socket _ _ b m (xs ++ s ∷ ys) _ refl read
            (find_key-thrown m.apikey xs ys s others e))

    -- A back end whose session has its key, where every session before it has another: the session gets the socket and the token, the
    -- back end is told its token and its key, and the front end the token and the back end's port.
    pub process_back-joined :
        s.apikey ≡ some m.apikey
        → process_back counter unset socket
            (read_message recv recv_body unset before)
            (xs ++ s ∷ ys)
          ≡ returned (some (joined counter socket m s (xs ++ s ∷ ys)))
    unfolding type_of byte_of
    process_back-joined e =
        let (b, read, back) = auth_read m fits port_fits in
        let came = read_message-framed recv recv_body unset before 3 _ _ fits head tail in
        rw came (
          joined_at counter unset socket _ _ b m s (xs ++ s ∷ ys) refl read back
            (find_key-found m.apikey xs ys s others e))
