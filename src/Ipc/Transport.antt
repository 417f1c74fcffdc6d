-- ===== src/Ipc/Transport.antt =====
-- client/shared/IPC/include/Client/Shared/IPC/IPCNetworkManager.inl: one round of receiveLoop with a client that
-- is ready. A call of the system is a function of the size asked for.
use fix4_2_protocol.Base.{
  ℕ, true, List, [], ◌∷◌, ◌++◌, ◌+◌, ◌*◌, ◌/◌, ◌%◌, ◌≤◌, ◌<◌, ◌≡◌, ◌≢◌, ◌⊎◌, inl, inr, refl, subst,
  ◌≢◌, if◌then◌else◌, Option, none, some, length, arith, Option-cases,
}
use fix4_2_protocol.Network.Buffer.{
  Buffer, FloatBytes, IsFaithful, new_buffer, append, reset, word_bytes, get, get_byte, get_word,
  check_size, number, first, skip,
}
use fix4_2_protocol.Network.Socket.{ℤ, pos, negsuc, eq_int, int_of, receive}
use fix4_2_protocol.Network.Reading.{◌>>=◌}
use fix4_2_protocol.Ipc.Types.{MessageType}
use fix4_2_protocol.Ipc.Wire.{byte_of, type_of, get_header}
use fix4_2_protocol.Ipc.Helper.{Payload, frame}
use fix4_2_protocol.Ipc.Framing.{size, pieces, bytes_of, length-bytes_of, frame-eq-framed}

-- The calls that a round ends with.
pub data ReceiveEvent : Type 0 where
  on_error : ReceiveEvent
  on_disconnection : ReceiveEvent
  on_wrong_size : List ℕ → ℤ → ReceiveEvent
  on_wrong_body_size : List ℕ → ℤ → ReceiveEvent
  on_receive : Buffer → ReceiveEvent

-- The rest of a round, behind the header; the variables of the header are not set before.
unfoldable pub receive_body : (ℕ → Option (List ℕ)) → ℕ → ℕ → List ℕ → ReceiveEvent
unfolding receive append reset
receive_body recv unset before bytes =
    let (b, header) = get_header unset before (append bytes new_buffer) in
    let (bytes', error) = receive (recv header.body_size) in
    if eq_int error (int_of header.body_size)
    then on_receive (reset (append bytes' b))
    else on_wrong_body_size bytes' (int_of header.body_size)

unfoldable pub receive_round : (ℕ → Option (List ℕ)) → (ℕ → Option (List ℕ)) → ℕ → ℕ → ReceiveEvent
unfolding receive receive_body
receive_round recv recv_body unset before =
    let (bytes, error) = receive (recv 5) in
    if eq_int error (pos 5)
    then receive_body recv_body unset before bytes
    else if eq_int error (negsuc 0)
    then on_error
    else if eq_int error (pos 0)
    then on_disconnection
    else on_wrong_size bytes error

-- What the five bytes of a header are read as.
pub header_bytes :
    (a b c d e unset before : ℕ)
    → let bytes : List ℕ = a ∷ b ∷ c ∷ d ∷ e ∷ [] in
      get_header unset before (append bytes new_buffer) ≡ (
        record { valid = true; read = 5; bytes = bytes },
        record { msg_type = type_of a; body_size = number 0 (b ∷ c ∷ d ∷ e ∷ []) },
      )
unfolding get_header append get_byte get_word get check_size first skip number ◌>>=◌
header_bytes a b c d e unset before = ground arith

pub number-word_bytes : (n : ℕ) → n < 4294967296 → number 0 (word_bytes n) ≡ n
unfolding number word_bytes
number-word_bytes n h = omega arith

-- What the rest of a round is behind the header of a body of n bytes.
body_round :
    (recv : ℕ → Option (List ℕ)) (a n unset before : ℕ)
    → n < 4294967296
    → receive_body recv unset before (a ∷ word_bytes n) ≡ (
        let (bs, error) = receive (recv n) in
        if eq_int error (int_of n)
        then on_receive (record { valid = true; read = 0; bytes = a ∷ (word_bytes n ++ bs) })
        else on_wrong_body_size bs (int_of n))
unfolding receive_body append reset word_bytes
body_round recv a n unset before h =
    let size = number-word_bytes n h in
    let read =
      header_bytes a (n / 16777216 % 256) (n / 65536 % 256) (n / 256 % 256) (n % 256) unset
        before in
    rw (read, size) refl

body_complete :
    (recv : ℕ → Option (List ℕ)) (a n unset before : ℕ) (bs : List ℕ)
    → n < 2147483648
    → length bs ≡ n
    → recv n ≡ some bs
    → receive_body recv unset before (a ∷ word_bytes n)
      ≡ on_receive (record { valid = true; read = 0; bytes = a ∷ (word_bytes n ++ bs) })
unfolding receive
body_complete recv a n unset before bs h e r =
    ground (arith, body_round recv a n unset before (omega arith))

-- `recv` gives bytes, and no more than were asked for.
abbrev pub AreBytes : List ℕ → Type 0
AreBytes [] = Unit
AreBytes (b ∷ bs) = (b < 256) × AreBytes bs

pub record IsRecv (recv : ℕ → Option (List ℕ)) : Type 0 where
  pub bounded : (n : ℕ) (bs : List ℕ) → recv n ≡ some bs → length bs ≤ n
  pub in_range : (n : ℕ) (bs : List ℕ) → recv n ≡ some bs → AreBytes bs

-- The buffer that is handed on is a header and as many bytes as it says.
pub record IsComplete (recv recv_body : ℕ → Option (List ℕ)) (x : Buffer) : Type 0 where
  pub msg_type : ℕ
  pub body_size : ℕ
  pub body : List ℕ
  pub header_came : recv 5 ≡ some (msg_type ∷ word_bytes body_size)
  pub body_came :
      ((recv_body body_size ≡ some body) × (length body ≡ body_size))
      ⊎ ((recv_body body_size ≡ none) × (body ≡ []) × (body_size ≡ 4294967295))
  pub handed :
      x ≡ record { valid = true; read = 0; bytes = msg_type ∷ (word_bytes body_size ++ body) }

five :
    (bs : List ℕ)
    → length bs ≡ 5
    → AreBytes bs
    → (a : ℕ) × (n : ℕ) × (n < 4294967296) × (bs ≡ a ∷ word_bytes n)
unfolding word_bytes
five [] h k = absurd (omega arith)
five (a ∷ []) h k = absurd (omega arith)
five (a ∷ b ∷ []) h k = absurd (omega arith)
five (a ∷ b ∷ c ∷ []) h k = absurd (omega arith)
five (a ∷ b ∷ c ∷ d ∷ []) h k = absurd (omega arith)
five (a ∷ b ∷ c ∷ d ∷ e ∷ []) h (ha, (hb, (hc, (hd, (he, _))))) =
    (a, b * 16777216 + c * 65536 + d * 256 + e, omega arith, ground arith)
five (a ∷ b ∷ c ∷ d ∷ e ∷ f ∷ bs) h k = absurd (omega arith)

receive_body_complete :
    (recv : ℕ → Option (List ℕ)) (a n unset before : ℕ) (x : Buffer)
    → IsRecv recv
    → n < 4294967296
    → receive_body recv unset before (a ∷ word_bytes n) ≡ on_receive x
    → (body : List ℕ) × (((recv n ≡ some body) × (length body ≡ n))
        ⊎ ((recv n ≡ none) × (body ≡ []) × (n ≡ 4294967295)))
      × (x ≡ record { valid = true; read = 0; bytes = a ∷ (word_bytes n ++ body) })
unfolding receive
receive_body_complete recv a n unset before x ok h e = elim (Option-cases (recv n)) [
  | inl q ↦ (
    [],
    inr (q, refl, ground (arith, body_round recv a n unset before h)),
    ground (arith, body_round recv a n unset before h),
  )
  | inr (bs, q) ↦
      let few = ok.bounded n bs q in
      (
        bs,
        inl (q, ground (arith, body_round recv a n unset before h)),
        ground (arith, body_round recv a n unset before h),
      )
]

handed-IsComplete :
    (recv recv_body : ℕ → Option (List ℕ)) (unset before : ℕ) (x : Buffer) (bs : List ℕ)
    → IsRecv recv_body
    → recv 5 ≡ some bs
    → length bs ≡ 5
    → AreBytes bs
    → receive_body recv_body unset before bs ≡ on_receive x
    → IsComplete recv recv_body x
handed-IsComplete recv recv_body unset before x bs ok q len range e =
    let (a, n, h, eq) = five bs len range in
    let (body, came, handed) =
      receive_body_complete recv_body a n unset before x ok h
        (subst (λ t. receive_body recv_body unset before t ≡ on_receive x) eq e) in
    record {
      msg_type = a;
      body_size = n;
      body = body;
      header_came = subst (λ t. recv 5 ≡ some t) eq q;
      body_came = came;
      handed = handed;
    }

-- Only five bytes that came lead behind the header.
receive_round-header :
    (recv recv_body : ℕ → Option (List ℕ)) (unset before : ℕ) (x : Buffer) (bs : List ℕ)
    → recv 5 ≡ some bs
    → length bs ≤ 5
    → receive_round recv recv_body unset before ≡ on_receive x
    → (length bs ≡ 5) × (receive_body recv_body unset before bs ≡ on_receive x)
unfolding receive_round receive
receive_round-header recv recv_body unset before x bs q few e = (ground arith, ground arith)

receive_round-came :
    (recv recv_body : ℕ → Option (List ℕ)) (unset before : ℕ) (x : Buffer)
    → receive_round recv recv_body unset before ≡ on_receive x
    → recv 5 ≢ none
unfolding receive_round receive
receive_round-came recv recv_body unset before x e q = ground arith

-- A round hands a buffer on only where five bytes of a header came, and behind them as many bytes as the header says,
-- but for a header that says 2^32 - 1 and a call that fails; the buffer is then those bytes. The calls of the system give
-- bytes, and no more than were asked for.
pub receive_round-IsComplete :
    (recv recv_body : ℕ → Option (List ℕ)) (unset before : ℕ) (x : Buffer)
    → IsRecv recv
    → IsRecv recv_body
    → receive_round recv recv_body unset before ≡ on_receive x
    → IsComplete recv recv_body x
receive_round-IsComplete recv recv_body unset before x ok ok' e = elim (Option-cases (recv 5)) [
  | inl q ↦ absurd (receive_round-came recv recv_body unset before x e q)
  | inr (bs, q) ↦
      let (len, e') =
        receive_round-header recv recv_body unset before x bs q (ok.bounded 5 bs q) e in
      handed-IsComplete recv recv_body unset before x bs ok' q len (ok.in_range 5 bs q) e'
]

module _ (F : Type 0) ⦃fb : FloatBytes F⦄ (ok : IsFaithful fb) where
  -- A message that a helper has framed and whose bytes arrive, the five of the header and then the rest, is handed on as
  -- the buffer that was sent.
  pub receive_round-frame :
      (t : MessageType) (m : Payload F t) (recv recv_body : ℕ → Option (List ℕ)) (unset before : ℕ)
      → size {F = F} (pieces t m) < 2147483648
      → recv 5 ≡ some (byte_of t ∷ word_bytes (size {F = F} (pieces t m)))
      → recv_body (size {F = F} (pieces t m)) ≡ some (bytes_of {F = F} (pieces t m))
      → receive_round recv recv_body unset before ≡ on_receive (frame F t m)
  unfolding receive_round receive word_bytes
  receive_round-frame t m recv recv_body unset before h r1 r2 =
      let n = size {F = F} (pieces t m) in
      let bs = bytes_of {F = F} (pieces t m) in
      let len = length-bytes_of ok (pieces t m) in
      let whole = body_complete recv_body (byte_of t) n unset before bs h len r2 in
      let made = frame-eq-framed ok t m (omega arith) in rw (r1, made, whole, len) refl
