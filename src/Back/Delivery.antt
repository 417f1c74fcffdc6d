-- ===== src/Back/Delivery.antt =====
-- What comes of the messages of the front end and of the server's reports: the frames of client/shared/IPC through FrontManager
-- and FixBuilder, and OBEvent's reports through Execution.
use fix4_2_protocol.Base.{
  ℕ, Str, codes, str_eq_iff, true, some, List, [], ◌∷◌, ◌<◌, ◌+◌, ◌%◌, ◌^◌, ◌≡◌, ◌⊎◌, refl, length,
  arith,
}
use fix4_2_protocol.Core.Enum.{EncryptionMethod, HandleInstance, OrderType, OrderStatus}
use fix4_2_protocol.Core.Float.{Float}
use fix4_2_protocol.Message.Types.{ExecutionReport}
use fix4_2_protocol.Market.Report.{event_report, create_event}
use fix4_2_protocol.OrderBook.{Event, thrown}
use fix4_2_protocol.Network.Buffer.{
  Buffer, FloatBytes, IsFaithful, reset, word_bytes, get, get_byte, get_word, check_size, first,
  skip,
}
use fix4_2_protocol.Network.Reading.{◌>>=◌}
use fix4_2_protocol.Ipc.Types.{MessageType, LogonMessage, OrderSingle}
use fix4_2_protocol.Ipc.Wire.{get_header, byte_of}
use fix4_2_protocol.Ipc.Helper.{Payload, frame, get_payload}
use fix4_2_protocol.Ipc.Framing.{size, pieces, bytes_of, framed, frame-eq-framed, length-bytes_of}
use fix4_2_protocol.Ipc.Exchange.{frame-read_back}
use fix4_2_protocol.Units.{parsed}
use fix4_2_protocol.Units.Store.{Entry}
use fix4_2_protocol.Back.{User, set_user_id, set_number}
use fix4_2_protocol.Back.FixBuilder.{
  built_logon, built_order, build, build_as, build_logon, build_order_single,
}
use fix4_2_protocol.Back.Front.{new_front, setup_token}
use fix4_2_protocol.Back.Front.Gate.{
  front_run, shows_token, is_handshake, handed, after_token, after_handshake, all_handed,
  front_run-output,
}
use fix4_2_protocol.Back.Execution.{
  execution_on_input, treat_report, treat_new_order, send_notification,
}

module _ (F : Type 0) ⦃fb : FloatBytes F⦄ (ok : IsFaithful fb) where
  -- An order that the front end has framed is built as a limit order, to be handled by hand, with its id, its symbol, its side, its
  -- quantity and its price; the user stays.
  pub build-order_frame :
      (unset before : ℕ) (l : LogonMessage) (m o : OrderSingle F) (u : User)
      → size {F = F} (pieces MessageType.order_single m) < 4294967296
      → build unset before l o (frame F MessageType.order_single m) u ≡ (
        u,
        some (
            built_order (record {
              cl_ord_id = m.order_id;
              handl_inst = HandleInstance.manual;
              order_qty = m.quantity;
              ord_type = OrderType.limit;
              price = m.price;
              side = m.side;
              symbol = m.symbol;
            })),
      )
  unfolding build build_as build_order_single get_payload
  build-order_frame unset before l m o u h =
      let (behind, after, e, e', _) =
        frame-read_back ok MessageType.order_single m o unset before h tt in
      rw (e, e') refl

  -- A log on that the front end has framed sets the user's name and number, and is built with no encryption and an interval one second
  -- longer.
  pub build-logon_frame :
      (unset before : ℕ) (l m : LogonMessage) (o : OrderSingle F) (u : User)
      → size {F = F} (pieces MessageType.logon m) < 4294967296
      → m.seq_num < 4294967296
      → m.heart_beat < 4294967296
      → build unset before l o (frame F MessageType.logon m) u ≡ (
        record u { user_id = m.user_id; seq_num = m.seq_num },
        some (
            built_logon (record {
              encrypt_method = EncryptionMethod.no_encryption;
              heart_bt_int = (m.heart_beat + 1) % 2 ^ 32;
            })),
      )
  unfolding build build_as build_logon get_payload set_user_id set_number
  build-logon_frame unset before l m o u h a b =
      let (behind, after, e, e', _) =
        frame-read_back ok MessageType.logon m l unset before h (a, (b, tt)) in
      rw (e, e') refl

  -- A message of the front end, whose frame is short enough.
  pub record Message : Type 0 where
    pub msg_type : MessageType
    pub payload : Payload F msg_type
    pub fits : size {F = F} (pieces msg_type payload) < 4294967296

  pub frames : List Message → List Buffer
  frames [] = []
  frames (m ∷ ms) = frame F m.msg_type m.payload ∷ frames ms

  framed_header :
      (unset before : ℕ) (t : MessageType) (bs : List ℕ)
      → length bs < 4294967296
      → reset (get_header unset before (framed t bs)).0 ≡ framed t bs
  unfolding reset get_header get_byte get_word get check_size skip first word_bytes ◌>>=◌
  framed_header unset before t bs h = ground arith

  handed-frame :
      (unset before : ℕ) (m : Message)
      → handed unset before (frame F m.msg_type m.payload) ≡ frame F m.msg_type m.payload
  unfolding handed
  handed-frame unset before m =
      let len = length-bytes_of ok (pieces m.msg_type m.payload) in
      rw (frame-eq-framed ok m.msg_type m.payload m.fits) (
        framed_header unset before m.msg_type (bytes_of {F = F} (pieces m.msg_type m.payload))
          (omega (arith, m.fits)))

  all_handed-frames :
      (unset before : ℕ) (ms : List Message) → all_handed unset before (frames ms) ≡ frames ms
  unfolding all_handed frames
  all_handed-frames unset before [] = refl
  all_handed-frames unset before (m ∷ ms) =
      rw (handed-frame unset before m, all_handed-frames unset before ms) refl

  token_frame_shown :
      (unset before : ℕ) (t : Str)
      → length t + 4 < 4294967296
      → shows_token unset before t
          (frame F MessageType.front_to_back_valid_token (record { token = t }))
        ≡ true
  unfolding shows_token get_payload
  token_frame_shown unset before t h =
      let (behind, after, e, e', _) =
        frame-read_back ok MessageType.front_to_back_valid_token (record { token = t })
          (record { token = t }) unset before (omega arith) tt in
      rw (e, e') (ground (arith, str_eq_iff t t))

  handshake_frame_shown :
      (unset before : ℕ) → is_handshake unset before (frame F MessageType.hand_shake_auth tt) ≡ true
  unfolding is_handshake byte_of
  handshake_frame_shown unset before =
      let (behind, after, e, _, _) =
        frame-read_back ok MessageType.hand_shake_auth tt tt unset before (omega arith) tt in
      rw e refl

  -- A front end that frames the token, a handshake and then messages: the queue of messages holds the frames of these, as they were sent.
  pub front_run-frames :
      (unset before : ℕ) (t : Str) (ms : List Message)
      → length t + 4 < 4294967296
      → (front_run unset before
          (frame F MessageType.front_to_back_valid_token (record { token = t })
            ∷ frame F MessageType.hand_shake_auth tt
            ∷ frames ms)
          (setup_token t new_front)).output
        ≡ frames ms
  unfolding after_token after_handshake
  front_run-frames unset before t ms h =
      rw
        (
          front_run-output unset before t _,
          token_frame_shown unset before t h,
          handshake_frame_shown unset before,
        )
        (all_handed-frames unset before ms)

  -- Every report that OBEvent makes of a trade, of an order that is then filled or filled in part, makes the client's Execution throw:
  -- the report has no price, and the client takes the price with `value()`.
  pub event_report-thrown :
      (fl : Float F) (unset address : ℕ) (symbol exec_id : Str) (cs : List Entry) (e : Event F)
      (r : ExecutionReport F)
      → (e.exec_status ≡ OrderStatus.partially_filled) ⊎ (e.exec_status ≡ OrderStatus.filled)
      → create_event ⦃fl = fl⦄ symbol exec_id cs e ≡ some (address, r)
      → execution_on_input unset (parsed r) ≡ thrown (codes "bad optional access")
  unfolding create_event event_report execution_on_input treat_report treat_new_order
      send_notification
  event_report-thrown fl unset address symbol exec_id cs e r s c = ground arith
