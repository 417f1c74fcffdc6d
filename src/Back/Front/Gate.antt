-- ===== src/Back/Front/Gate.antt =====
-- Which buffers of the front end FrontManager hands on.
use fix4_2_protocol.Base.{
  ℕ, Str, codes, str_eq, Bool, true, false, ◌&&◌, some, List, [], ◌∷◌, ◌++◌, append_assoc,
  append-nil, if◌then◌else◌, Bool-cases, inl, inr, ◌≡◌, refl, arith,
}
use fix4_2_protocol.Network.Buffer.{Buffer, reset}
use fix4_2_protocol.Ipc.Types.{MessageType}
use fix4_2_protocol.Ipc.Wire.{get_header, get_front_to_back_valid_token}
use fix4_2_protocol.Back.Front.{
  Front, new_front, setup_token, send, refuse, is_type, check_token, authenticate, shake_hands,
  auth_validation, front_on_receive,
}

-- The variables of the header before it is read.
module _ (unset before : ℕ) where
  -- The buffers of the front end in their order.
  unfoldable pub front_run : List Buffer → Front → Front
  front_run [] f = f
  front_run (b ∷ bs) f = front_run bs (front_on_receive unset before b f)

  -- A message with the token t, and a handshake.
  unfoldable pub shows_token : Str → Buffer → Bool
  shows_token t b =
      let (b', h) = get_header unset before b in
      let (_, m) = get_front_to_back_valid_token b' in
      is_type h.msg_type MessageType.front_to_back_valid_token && str_eq m.token t

  unfoldable pub is_handshake : Buffer → Bool
  is_handshake b =
      let (_, h) = get_header unset before b in is_type h.msg_type MessageType.hand_shake_auth

  -- A buffer as it is handed on: to be read from its start.
  unfoldable pub handed : Buffer → Buffer
  handed b = let (b', _) = get_header unset before b in reset b'

  -- What follows the first message with the token.
  unfoldable pub after_token : Str → List Buffer → List Buffer
  after_token t [] = []
  after_token t (b ∷ bs) = let rest = after_token t bs in if shows_token t b then bs else rest

  -- What follows the first handshake.
  unfoldable pub after_handshake : List Buffer → List Buffer
  after_handshake [] = []
  after_handshake (b ∷ bs) = let rest = after_handshake bs in if is_handshake b then bs else rest

  unfoldable pub all_handed : List Buffer → List Buffer
  all_handed [] = []
  all_handed (b ∷ bs) = handed b ∷ all_handed bs

  -- What a message does in each of the three states.
  opened :
      (b : Buffer) (f : Front)
      → f.auth ≡ true
      → f.handshake ≡ true
      → front_on_receive unset before b f ≡ record f { output = f.output ++ handed b ∷ [] }
  unfolding front_on_receive auth_validation handed
  opened b f a h = ground arith

  shaken :
      (b : Buffer) (f : Front)
      → f.auth ≡ true
      → f.handshake ≡ false
      → front_on_receive unset before b f ≡ (
          if is_handshake b
          then record f { handshake = true }
          else refuse (codes "Client is missing handshake to processed") f)
  unfolding front_on_receive auth_validation shake_hands is_handshake
  shaken b f a h = ground arith

  -- A message that does not show the token is refused, with one reject.
  authenticated :
      (t : Str) (b : Buffer) (f : Front)
      → f.auth ≡ false
      → f.token ≡ some t
      → ((front_on_receive unset before b f).output ≡ f.output)
        × ((front_on_receive unset before b f).token ≡ some t)
        × ((front_on_receive unset before b f).handshake ≡ f.handshake)
        × ((front_on_receive unset before b f).auth ≡ shows_token t b)
  unfolding front_on_receive auth_validation authenticate check_token refuse send shows_token
  authenticated t b f a h = (ground arith, ground arith, ground arith, ground arith)

  open_lem :
      (bs : List Buffer) (f : Front)
      → f.auth ≡ true
      → f.handshake ≡ true
      → (front_run bs f).output ≡ f.output ++ all_handed bs
  unfolding front_run all_handed
  open_lem [] f a h = ground (arith, append-nil f.output)
  open_lem (b ∷ bs) f a h =
      let f' : Front = record f { output = f.output ++ handed b ∷ [] } in
      rw (opened b f a h, front_run)
        (ground (arith, open_lem bs f' a h, append_assoc f.output (handed b ∷ []) (all_handed bs)))

  shaking_lem :
      (bs : List Buffer) (f : Front)
      → f.auth ≡ true
      → f.handshake ≡ false
      → (front_run bs f).output ≡ f.output ++ all_handed (after_handshake bs)
  unfolding front_run after_handshake all_handed refuse send
  shaking_lem [] f a h = ground (arith, append-nil f.output)
  shaking_lem (b ∷ bs) f a h =
      rw (shaken b f a h, front_run)
        (elim (Bool-cases (is_handshake b)) [
          | inl e ↦ rw e (open_lem bs (record f { handshake = true }) a refl)
          | inr e ↦
              rw e
                (shaking_lem bs (refuse (codes "Client is missing handshake to processed") f) a h)
        ])

  closed_lem :
      (t : Str) (bs : List Buffer) (f : Front)
      → f.auth ≡ false
      → f.handshake ≡ false
      → f.token ≡ some t
      → (front_run bs f).output ≡ f.output ++ all_handed (after_handshake (after_token t bs))
  unfolding front_run after_token after_handshake all_handed
  closed_lem t [] f a h k = ground (arith, append-nil f.output)
  closed_lem t (b ∷ bs) f a h k =
      let f' = front_on_receive unset before b f in
      let (o, k', h', a') = authenticated t b f a k in
      elim (Bool-cases (shows_token t b)) [
        | inl e ↦ rw e (ground (arith, shaking_lem bs f'))
        | inr e ↦ rw e (ground (arith, closed_lem t bs f'))
      ]

  -- From the start, once the initiator has given the token, what is handed on is what follows the first message with that token
  -- and, behind it, the first handshake: no buffer before, and every buffer after, in their order.
  pub front_run-output :
      (t : Str) (bs : List Buffer)
      → (front_run bs (setup_token t new_front)).output
        ≡ all_handed (after_handshake (after_token t bs))
  unfolding setup_token
  front_run-output t bs = closed_lem t bs (setup_token t new_front) refl refl refl
