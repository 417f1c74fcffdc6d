-- ===== src/Ipc/Framing.antt =====
-- The bytes that the helpers of client/shared/IPC make of a message, and what the readers make of them.
use fix4_2_protocol.Base.{
  ℕ, Str, List, [], ◌∷◌, ◌++◌, append_assoc, append-nil, ◌+◌, ◌*◌, ◌%◌, ◌<◌, ◌≡◌, refl, ap, true,
  length, length-append, arith,
}
use fix4_2_protocol.Network.Buffer.{
  Buffer, FloatBytes, IsFaithful, append, word_bytes, put_byte, put_word, put_text, put_float,
  first,
}
use fix4_2_protocol.Network.Reading.{text_bytes, length-text_bytes}
use fix4_2_protocol.Ipc.Types.{MessageType, OrderSingle, Execution}
use fix4_2_protocol.Ipc.Wire.{
  byte_of, put_header, put_auth_front_to_initiator, put_auth_initiator_to_front,
  put_auth_initiator_to_back, put_auth_back_to_initiator, put_initiator_to_front_valid_token,
  put_front_to_back_valid_token, put_reject, put_logon, put_order_single, put_execution,
}
use fix4_2_protocol.Ipc.Helper.{Payload, frame, start}

-- A text as it is written: its length, and its characters.
take_all : (s : Str) → first (length s) s ≡ s
unfolding first
take_all [] = refl
take_all (c ∷ s) = ap (λ (t : Str). c ∷ t) (take_all s)

put_text_lem :
    (s : Str) (b : Buffer) → length s < 4294967296 → put_text s b ≡ append (text_bytes s) b
unfolding put_text append text_bytes
put_text_lem [] b h = ground (arith, append-nil b.bytes)
put_text_lem (c ∷ s) b h =
    ground (arith, take_all (c ∷ s), append_assoc b.bytes (word_bytes (length (c ∷ s))) (c ∷ s))

-- A value as it lies in a message.
pub data Piece (F : Type 0) : Type 0 where
  text : Str → Piece F
  word : ℕ → Piece F
  byte : ℕ → Piece F
  float : F → Piece F

-- A buffer that holds a header with the size of the body, and the body.
abbrev pub framed : MessageType → List ℕ → Buffer
framed t bs = record { valid = true; read = 0; bytes = byte_of t ∷ (word_bytes (length bs) ++ bs) }

module _ {F : Type 0} ⦃fb : FloatBytes F⦄ where
  abbrev pub piece_bytes : Piece F → List ℕ
  piece_bytes (text s) = text_bytes s
  piece_bytes (word n) = word_bytes n
  piece_bytes (byte n) = n ∷ []
  piece_bytes (float f) = fb.to_bytes f

  abbrev pub bytes_of : List (Piece F) → List ℕ
  bytes_of [] = []
  bytes_of (p ∷ ps) = piece_bytes p ++ bytes_of ps

  abbrev pub size : List (Piece F) → ℕ
  size [] = 0
  size (text s ∷ ps) = 4 + length s + size ps
  size (word n ∷ ps) = 4 + size ps
  size (byte n ∷ ps) = 1 + size ps
  size (float f ∷ ps) = 4 + size ps

  -- The writers in their order.
  abbrev write : List (Piece F) → Buffer → Buffer
  write [] b = b
  write (text s ∷ ps) b = write ps (put_text s b)
  write (word n ∷ ps) b = write ps (put_word n b)
  write (byte n ∷ ps) b = write ps (put_byte n b)
  write (float f ∷ ps) b = write ps (put_float f b)

  abbrev pub order_pieces : OrderSingle F → List (Piece F)
  order_pieces m =
      text m.symbol ∷ text m.order_id ∷ float m.price ∷ float m.quantity ∷ byte m.side ∷ []

  abbrev pub execution_pieces : Execution F → List (Piece F)
  execution_pieces m =
      text m.symbol
      ∷ text m.order_id
      ∷ text m.exec_id
      ∷ float m.avg_price
      ∷ float m.price
      ∷ byte m.side
      ∷ float m.quantity
      ∷ float m.remain_qty
      ∷ []

  -- What a message of the type holds, in its order.
  abbrev pub pieces : (t : MessageType) → Payload F t → List (Piece F)
  pieces MessageType.reject m = text m.message ∷ []
  pieces MessageType.front_to_initiator_auth m = text m.apikey ∷ text m.name ∷ []
  pieces MessageType.initiator_to_front_auth m = text m.name ∷ []
  pieces MessageType.back_to_initiator_auth m = text m.apikey ∷ word m.port ∷ []
  pieces MessageType.initiator_to_back_auth m = text m.token ∷ text m.apikey ∷ []
  pieces MessageType.initiator_to_front_valid_token m = text m.token ∷ word m.port ∷ []
  pieces MessageType.front_to_back_valid_token m = text m.token ∷ []
  pieces MessageType.back_to_front_valid_token m = text m.token ∷ []
  pieces MessageType.hand_shake_auth m = []
  pieces MessageType.status m = byte m ∷ []
  pieces MessageType.logon m = text m.user_id ∷ word m.seq_num ∷ word m.heart_beat ∷ []
  pieces MessageType.order_single m = order_pieces m
  pieces MessageType.exec_new m = execution_pieces m
  pieces MessageType.exec_event m = execution_pieces m
  pieces (MessageType.unnamed n) m = []

  pub length-bytes_of : IsFaithful fb → (ps : List (Piece F)) → length (bytes_of ps) ≡ size ps
  unfolding word_bytes
  length-bytes_of ok [] = refl
  length-bytes_of ok (text s ∷ ps) = omega (
    arith,
    length-append (text_bytes s) (bytes_of ps),
    length-text_bytes s,
    length-bytes_of ok ps,
  )
  length-bytes_of ok (word n ∷ ps) = omega (arith, length-bytes_of ok ps)
  length-bytes_of ok (byte n ∷ ps) = omega (arith, length-bytes_of ok ps)
  length-bytes_of ok (float f ∷ ps) =
      omega (arith, length-append (fb.to_bytes f) (bytes_of ps), ok.four f, length-bytes_of ok ps)

  write_lem :
      (ps : List (Piece F)) (b : Buffer)
      → size ps < 4294967296
      → write ps b ≡ append (bytes_of ps) b
  unfolding append put_word put_byte put_float
  write_lem [] b h = ground (arith, append-nil b.bytes)
  write_lem (text s ∷ ps) b h = rw (put_text_lem s b (omega arith)) (
      ground (
        arith,
        write_lem ps (append (text_bytes s) b),
        append_assoc b.bytes (text_bytes s) (bytes_of ps),
      ))
  write_lem (word n ∷ ps) b h =
      ground (arith, write_lem ps (put_word n b), append_assoc b.bytes (word_bytes n) (bytes_of ps))
  write_lem (byte n ∷ ps) b h =
      ground (arith, write_lem ps (put_byte n b), append_assoc b.bytes (n ∷ []) (bytes_of ps))
  write_lem (float f ∷ ps) b h =
      ground
        (arith, write_lem ps (put_float f b), append_assoc b.bytes (fb.to_bytes f) (bytes_of ps))

  start-framed :
      IsFaithful fb
      → (t : MessageType) (n : ℕ) (ps : List (Piece F)) → size ps < 4294967296
      → n ≡ size ps
      → write ps (start t n) ≡ framed t (bytes_of ps)
  unfolding append put_header put_word put_byte
  start-framed ok t n ps h e =
      let fits : n % 4294967296 ≡ length (bytes_of ps) = omega (arith, length-bytes_of ok ps) in
      rw (write_lem ps (start t n) h, fits) refl

  -- Where the body is shorter than 2^32 bytes, a helper's buffer is the byte of the type, the number of
  -- the bytes of the body, and the body.
  pub frame-eq-framed :
      IsFaithful fb
      → (t : MessageType) (m : Payload F t) → size (pieces t m) < 4294967296
      → frame F t m ≡ framed t (bytes_of (pieces t m))
  unfolding frame put_reject put_auth_front_to_initiator put_auth_initiator_to_front
      put_auth_initiator_to_back put_auth_back_to_initiator put_initiator_to_front_valid_token
      put_front_to_back_valid_token put_logon put_order_single put_execution
  frame-eq-framed ok MessageType.reject m h =
      start-framed ok MessageType.reject (4 + length m.message) (pieces MessageType.reject m) h
        (omega arith)
  frame-eq-framed ok MessageType.front_to_initiator_auth m h =
      start-framed ok MessageType.front_to_initiator_auth (4 * 2 + length m.apikey + length m.name)
        (pieces MessageType.front_to_initiator_auth m) h (omega arith)
  frame-eq-framed ok MessageType.initiator_to_front_auth m h =
      start-framed ok MessageType.initiator_to_front_auth (4 + length m.name)
        (pieces MessageType.initiator_to_front_auth m) h (omega arith)
  frame-eq-framed ok MessageType.back_to_initiator_auth m h =
      start-framed ok MessageType.back_to_initiator_auth (4 * 2 + length m.apikey)
        (pieces MessageType.back_to_initiator_auth m) h (omega arith)
  frame-eq-framed ok MessageType.initiator_to_back_auth m h =
      start-framed ok MessageType.initiator_to_back_auth (4 * 2 + length m.apikey + length m.token)
        (pieces MessageType.initiator_to_back_auth m) h (omega arith)
  frame-eq-framed ok MessageType.initiator_to_front_valid_token m h =
      start-framed ok MessageType.initiator_to_front_valid_token (4 * 2 + length m.token)
        (pieces MessageType.initiator_to_front_valid_token m) h (omega arith)
  frame-eq-framed ok MessageType.front_to_back_valid_token m h =
      start-framed ok MessageType.front_to_back_valid_token (4 + length m.token)
        (pieces MessageType.front_to_back_valid_token m) h (omega arith)
  frame-eq-framed ok MessageType.back_to_front_valid_token m h =
      start-framed ok MessageType.back_to_front_valid_token (4 + length m.token)
        (pieces MessageType.back_to_front_valid_token m) h (omega arith)
  frame-eq-framed ok MessageType.hand_shake_auth m h =
      start-framed ok MessageType.hand_shake_auth (0) (pieces MessageType.hand_shake_auth m) h
        (omega arith)
  frame-eq-framed ok MessageType.status m h =
      start-framed ok MessageType.status (1) (pieces MessageType.status m) h (omega arith)
  frame-eq-framed ok MessageType.logon m h =
      start-framed ok MessageType.logon (4 * 2 + length m.user_id + 4) (pieces MessageType.logon m)
        h (omega arith)
  frame-eq-framed ok MessageType.order_single m h =
      start-framed ok MessageType.order_single
        (4 * 2 + length m.symbol + length m.order_id + 4 + 4 + 1)
        (pieces MessageType.order_single m) h (omega arith)
  frame-eq-framed ok MessageType.exec_new m h =
      start-framed ok MessageType.exec_new
        (4 * 3 + length m.symbol + length m.order_id + length m.exec_id + 4 * 2 + 1 + 4 * 2)
        (pieces MessageType.exec_new m) h (omega arith)
  frame-eq-framed ok MessageType.exec_event m h =
      start-framed ok MessageType.exec_event
        (4 * 3 + length m.symbol + length m.order_id + length m.exec_id + 4 * 2 + 1 + 4 * 2)
        (pieces MessageType.exec_event m) h (omega arith)
  frame-eq-framed ok (MessageType.unnamed n) m h = elim m [ ]
