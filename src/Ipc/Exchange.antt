-- ===== src/Ipc/Exchange.antt =====
-- What a receiver of client/shared/IPC reads of the buffer that a helper makes.
use fix4_2_protocol.Base.{ℕ, Str, List, [], ◌∷◌, ◌++◌, append-nil, ◌<◌, ◌≡◌, refl, length, arith}
use fix4_2_protocol.Network.Buffer.{
  Buffer, FloatBytes, IsFaithful, word_bytes, skip, get_byte, get_word, get_text, get_float,
}
use fix4_2_protocol.Network.Reading.{
  Reader, Reads, IsAt, give, ◌>>=◌, text_bytes, bind-Reads, get_byte-Reads, get_word-Reads,
  get_text-Reads, get_float-Reads,
}
use fix4_2_protocol.Ipc.Types.{MessageType, IpcHeader, OrderSingle, Execution}
use fix4_2_protocol.Ipc.Wire.{
  byte_of, type_of, get_header, get_auth_front_to_initiator, get_auth_initiator_to_front,
  get_auth_initiator_to_back, get_auth_back_to_initiator, get_initiator_to_front_valid_token,
  get_front_to_back_valid_token, get_reject, get_logon, get_order_single, get_execution,
}
use fix4_2_protocol.Ipc.Helper.{Payload, frame, get_payload}
use fix4_2_protocol.Ipc.Framing.{
  Piece, text, word, byte, float, bytes_of, size, pieces, order_pieces, execution_pieces, framed,
  length-bytes_of, frame-eq-framed,
}

give_lem : {A : Type 0} (a : A) → Reads (give a) [] a
give_lem a b rest h = (b, refl, h)

pub type_of-byte_of : (F : Type 0) (t : MessageType) → Payload F t → type_of (byte_of t) ≡ t
unfolding type_of byte_of
type_of-byte_of F MessageType.reject m = refl
type_of-byte_of F MessageType.front_to_initiator_auth m = refl
type_of-byte_of F MessageType.initiator_to_front_auth m = refl
type_of-byte_of F MessageType.back_to_initiator_auth m = refl
type_of-byte_of F MessageType.initiator_to_back_auth m = refl
type_of-byte_of F MessageType.initiator_to_front_valid_token m = refl
type_of-byte_of F MessageType.front_to_back_valid_token m = refl
type_of-byte_of F MessageType.back_to_front_valid_token m = refl
type_of-byte_of F MessageType.hand_shake_auth m = refl
type_of-byte_of F MessageType.status m = refl
type_of-byte_of F MessageType.logon m = refl
type_of-byte_of F MessageType.order_single m = refl
type_of-byte_of F MessageType.exec_new m = refl
type_of-byte_of F MessageType.exec_event m = refl
type_of-byte_of F (MessageType.unnamed n) m = elim m [ ]

pub header-Reads :
    (unset before : ℕ) (t : MessageType) (n : ℕ)
    → n < 4294967296
    → Reads
        (get_header unset before)
        (byte_of t ∷ [] ++ word_bytes n)
        (record { msg_type = type_of (byte_of t); body_size = n })
unfolding get_header
header-Reads unset before t n h =
    bind-Reads (get_byte unset) _ (byte_of t ∷ []) (word_bytes n) (byte_of t) _
      (get_byte-Reads unset (byte_of t))
      (rw (← append-nil (word_bytes n)) (
        bind-Reads (get_word before) _ (word_bytes n) [] n _ (get_word-Reads before n h)
          (give_lem (record { msg_type = type_of (byte_of t); body_size = n }))))

pub framed-IsAt :
    (t : MessageType) (bs : List ℕ)
    → length bs < 4294967296
    → IsAt (framed t bs) ((byte_of t ∷ [] ++ word_bytes (length bs)) ++ bs)
unfolding skip word_bytes
framed-IsAt t bs h = record {
  is_valid = refl;
  left = refl;
  within = omega arith;
  small = omega arith;
}

module _ {F : Type 0} ⦃fb : FloatBytes F⦄ (ok : IsFaithful fb) where
  -- The numbers of a message are numbers of 32 bits.
  abbrev pub AreWords : List (Piece F) → Type 0
  AreWords [] = Unit
  AreWords (text s ∷ ps) = AreWords ps
  AreWords (word n ∷ ps) = (n < 4294967296) × AreWords ps
  AreWords (byte n ∷ ps) = AreWords ps
  AreWords (float f ∷ ps) = AreWords ps

  text_then :
      {A : Type 0} (s : Str) (f : Str → Reader A) (cs : List ℕ) (a : A)
      → length s < 4294967296
      → Reads (f s) cs a
      → Reads (get_text >>= f) (text_bytes s ++ cs) a
  text_then s f cs a h r =
      bind-Reads get_text f (text_bytes s) cs s a (get_text-Reads s (omega arith)) r

  word_then :
      {A : Type 0} (old n : ℕ) (f : ℕ → Reader A) (cs : List ℕ) (a : A)
      → n < 4294967296
      → Reads (f n) cs a
      → Reads (get_word old >>= f) (word_bytes n ++ cs) a
  word_then old n f cs a h r =
      bind-Reads (get_word old) f (word_bytes n) cs n a (get_word-Reads old n h) r

  byte_then :
      {A : Type 0} (old n : ℕ) (f : ℕ → Reader A) (cs : List ℕ) (a : A)
      → Reads (f n) cs a
      → Reads (get_byte old >>= f) (n ∷ [] ++ cs) a
  byte_then old n f cs a r = bind-Reads (get_byte old) f (n ∷ []) cs n a (get_byte-Reads old n) r

  float_then :
      {A : Type 0} (old v : F) (f : F → Reader A) (cs : List ℕ) (a : A)
      → Reads (f v) cs a
      → Reads (get_float old >>= f) (fb.to_bytes v ++ cs) a
  float_then old v f cs a r =
      bind-Reads (get_float old) f (fb.to_bytes v) cs v a (get_float-Reads ok old v) r

  get_execution-Reads :
      (old m : Execution F)
      → size (execution_pieces m) < 4294967296
      → Reads (get_execution old) (bytes_of (execution_pieces m)) m
  unfolding get_execution
  get_execution-Reads old m h = text_then m.symbol _ _ m (omega arith) (
      text_then m.order_id _ _ m (omega arith) (
        text_then m.exec_id _ _ m (omega arith) (
          float_then old.avg_price m.avg_price _ _ m (
            float_then old.price m.price _ _ m (
              byte_then 0 m.side _ _ m (
                float_then old.quantity m.quantity _ _ m
                  (float_then old.remain_qty m.remain_qty _ [] m (give_lem m))))))))

  get_order_single-Reads :
      (unset : ℕ) (old m : OrderSingle F)
      → size (order_pieces m) < 4294967296
      → Reads (get_order_single unset old) (bytes_of (order_pieces m)) m
  unfolding get_order_single
  get_order_single-Reads unset old m h = text_then m.symbol _ _ m (omega arith) (
      text_then m.order_id _ _ m (omega arith) (
        float_then old.price m.price _ _ m
          (float_then old.quantity m.quantity _ _ m (byte_then unset m.side _ [] m (give_lem m)))))

  pub get_payload-Reads :
      (unset : ℕ) (t : MessageType) (old m : Payload F t)
      → size {F = F} (pieces t m) < 4294967296
      → AreWords (pieces t m)
      → Reads (get_payload F unset t old) (bytes_of {F = F} (pieces t m)) m
  unfolding get_payload get_reject get_auth_front_to_initiator get_auth_initiator_to_front
      get_auth_initiator_to_back get_auth_back_to_initiator get_initiator_to_front_valid_token
      get_front_to_back_valid_token get_logon
  get_payload-Reads unset MessageType.reject old m h w =
      text_then m.message _ [] m (omega arith) (give_lem m)
  get_payload-Reads unset MessageType.front_to_initiator_auth old m h w =
      text_then m.apikey _ _ m (omega arith) (text_then m.name _ [] m (omega arith) (give_lem m))
  get_payload-Reads unset MessageType.initiator_to_front_auth old m h w =
      text_then m.name _ [] m (omega arith) (give_lem m)
  get_payload-Reads unset MessageType.back_to_initiator_auth old m h w =
      text_then m.apikey _ _ m (omega arith) (word_then old.port m.port _ [] m w.0 (give_lem m))
  get_payload-Reads unset MessageType.initiator_to_back_auth old m h w =
      text_then m.token _ _ m (omega arith) (text_then m.apikey _ [] m (omega arith) (give_lem m))
  get_payload-Reads unset MessageType.initiator_to_front_valid_token old m h w =
      text_then m.token _ _ m (omega arith) (word_then old.port m.port _ [] m w.0 (give_lem m))
  get_payload-Reads unset MessageType.front_to_back_valid_token old m h w =
      text_then m.token _ [] m (omega arith) (give_lem m)
  get_payload-Reads unset MessageType.back_to_front_valid_token old m h w =
      text_then m.token _ [] m (omega arith) (give_lem m)
  get_payload-Reads unset MessageType.hand_shake_auth old m h w = give_lem m
  get_payload-Reads unset MessageType.status old m h w = get_byte-Reads old m
  get_payload-Reads unset MessageType.logon old m h w = text_then m.user_id _ _ m (omega arith) (
      word_then old.seq_num m.seq_num _ _ m w.0
        (word_then old.heart_beat m.heart_beat _ [] m w.1.0 (give_lem m)))
  get_payload-Reads unset MessageType.order_single old m h w = get_order_single-Reads unset old m h
  get_payload-Reads unset MessageType.exec_new old m h w = get_execution-Reads old m h
  get_payload-Reads unset MessageType.exec_event old m h w = get_execution-Reads old m h
  get_payload-Reads unset (MessageType.unnamed n) old m h w = elim m [ ]

  -- A buffer that a helper has made is read back: the header, with the number of the bytes behind it, and then the
  -- message, whatever the variables held before; no byte is left.
  pub frame-read_back :
      (t : MessageType) (m old : Payload F t) (unset before : ℕ)
      → size {F = F} (pieces t m) < 4294967296
      → AreWords (pieces t m)
      → (behind after : Buffer) × (get_header unset before (frame F t m)
          ≡ (behind, record { msg_type = t; body_size = size {F = F} (pieces t m) }))
        × (get_payload F unset t old behind ≡ (after, m))
        × IsAt after []
  frame-read_back t m old unset before h w =
      let n = size {F = F} (pieces t m) in
      let bs = bytes_of {F = F} (pieces t m) in
      let len : length bs ≡ n = length-bytes_of ok (pieces t m) in
      let made : frame F t m ≡ framed t bs = frame-eq-framed ok t m h in
      let head : IpcHeader = record { msg_type = t; body_size = length bs } in
      let at_start : IsAt (framed t bs) ((byte_of t ∷ [] ++ word_bytes (length bs)) ++ bs) =
        framed-IsAt t bs (omega arith) in
      let (behind, e, h1) =
        header-Reads unset before t (length bs) (omega arith) (framed t bs) bs at_start in
      let (after, e', h2) = get_payload-Reads unset t old m h w behind [] (rw (append-nil bs) h1) in
      (behind, after, rw (made, ← len, e, type_of-byte_of F t m) refl, e', h2)
