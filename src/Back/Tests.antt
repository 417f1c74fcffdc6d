-- ===== src/Back/Tests.antt =====
-- The back end on concrete messages, and each theorem at a concrete input. A float is 0 or 1 where it has bytes, and a whole number
-- where it counts.
use fix4_2_protocol.Base.{
  codes, Bool, true, false, some, List, [], ◌∷◌, ◌≡◌, inr, refl, arith, str_eq,
}
use fix4_2_protocol.Core.Enum.{
  EncryptionMethod, HandleInstance, OrderType, OrderStatus, Side, RejectReasonSession,
}
use fix4_2_protocol.Core.Float.{Float, naturals}
use fix4_2_protocol.OrderBook.{Event, thrown}
use fix4_2_protocol.Market.Report.{create_event, event_report}
use fix4_2_protocol.Network.Buffer.{Buffer}
use fix4_2_protocol.Ipc.Types.{MessageType, LogonMessage}
use fix4_2_protocol.Ipc.Helper.{frame}
use fix4_2_protocol.Ipc.Tests.{coin, coin_ok, order, blank}
use fix4_2_protocol.Session.HeaderValidation.{verify_user_specific, header_reject}
use fix4_2_protocol.Units.{LogonRequest, parsed}
use fix4_2_protocol.Units.Store.{Entry, new_session}
use fix4_2_protocol.Units.Output.{numbered, count_received}
use fix4_2_protocol.Back.{User}
use fix4_2_protocol.Back.HeaderValidation.{back_verify_user, back_reject}
use fix4_2_protocol.Back.Network.{back_output, back_count_received}
use fix4_2_protocol.Back.FixBuilder.{build, built_order}
use fix4_2_protocol.Back.Execution.{execution_on_input}
use fix4_2_protocol.Back.Front.{new_front, setup_token}
use fix4_2_protocol.Back.Front.Gate.{
  front_run, front_run-output, all_handed, after_handshake, after_token,
}
use fix4_2_protocol.Back.Delivery.{
  Message, frames, build-order_frame, front_run-frames, event_report-thrown,
}
use fix4_2_protocol.Back.Dialogue.{
  Line, Content, client_speaks, accepted, none_taken, taken, client_sends, log_on,
}
use fix4_2_protocol.Back.Dialogue.Crossing.{log_on-accepted, crossed_refused}

abbrev nobody : User
nobody = record {
  seq_num = 1;
  logged_in = false;
  user_id = codes "alice";
  dc_req = false;
  logout_req = false;
  since = 0;
  elapsing = 0;
}

abbrev content : Content
content = record { time = 0; msg_type = b'A'; size = 9 }

abbrev asked : LogonRequest
asked = record { encrypt_method = EncryptionMethod.no_encryption; heart_bt_int = 3 }

abbrev talk : Line
talk = log_on (λ n. n) (λ n. n) 10 (codes "exchange") content content asked asked new_session nobody

log_on-accepted_example :
    accepted (codes "exchange") (client_speaks (codes "exchange") content talk) ≡ true
unfolding log_on
log_on-accepted_example =
    log_on-accepted (λ n. n) (λ n. n) 10 (codes "exchange") content content asked asked new_session
      nobody (client_speaks (codes "exchange") content talk) refl refl (omega arith)
      (taken none_taken (client_sends talk content refl refl (omega arith)))

abbrev both : Line
both = record {
  server = record { logged_in = true; user_id = codes "alice"; should_dc = false; seq_num = 4 };
  user = record {
    seq_num = 4;
    logged_in = true;
    user_id = codes "alice";
    dc_req = false;
    logout_req = false;
    since = 0;
    elapsing = 3;
  };
  up = [];
  down = [];
}

crossed_refused_example :
    let (u, h) = back_output (codes "exchange") 0 b'A' 9 both.user in
    let (c, g) = numbered (codes "exchange") 0 b'A' 9 both.server in
    (verify_user_specific (codes "exchange") h (count_received c)
      ≡ some (
          header_reject h RejectReasonSession.value_out_of_range 34
            (codes "Inccorect message sequence number")))
    × (back_verify_user (codes "exchange") g (back_count_received u)
        ≡ some (
            back_reject g RejectReasonSession.value_out_of_range 34
              (codes "Inccorect message sequence number")))
crossed_refused_example =
    crossed_refused (codes "exchange") content content both
      (record { server_in = refl; client_in = refl; one_user = refl }) refl (omega arith)

abbrev no_logon : LogonMessage
no_logon = record { user_id = []; seq_num = 0; heart_beat = 0 }

build-order_frame_example :
    build 9 9 no_logon blank (frame Bool MessageType.order_single order) nobody ≡ (
      nobody,
      some (
          built_order (record {
            cl_ord_id = codes "7";
            handl_inst = HandleInstance.manual;
            order_qty = false;
            ord_type = OrderType.limit;
            price = true;
            side = 49;
            symbol = codes "GLD";
          })),
    )
build-order_frame_example =
    build-order_frame Bool coin_ok 9 9 no_logon order blank nobody (omega arith)

abbrev an_order_message : Message Bool coin_ok
an_order_message = record {
  msg_type = MessageType.order_single;
  payload = order;
  fits = omega arith;
}

front_run-frames_example :
    (front_run 9 9
      (frame Bool MessageType.front_to_back_valid_token (record { token = codes "k" })
        ∷ frame Bool MessageType.hand_shake_auth tt
        ∷ frames Bool coin_ok (an_order_message ∷ []))
      (setup_token (codes "k") new_front)).output
    ≡ frames Bool coin_ok (an_order_message ∷ [])
front_run-frames_example =
    front_run-frames Bool coin_ok 9 9 (codes "k") (an_order_message ∷ []) (omega arith)

abbrev from_front : List Buffer
from_front =
    frame Bool MessageType.hand_shake_auth tt
    ∷ frame Bool MessageType.front_to_back_valid_token (record { token = codes "k" })
    ∷ frame Bool MessageType.order_single order
    ∷ frame Bool MessageType.hand_shake_auth tt
    ∷ frame Bool MessageType.order_single order
    ∷ []

front_run-output_example :
    (front_run 9 9 from_front (setup_token (codes "k") new_front)).output
    ≡ all_handed 9 9 (after_handshake 9 9 (after_token 9 9 (codes "k") from_front))
front_run-output_example = front_run-output 9 9 (codes "k") from_front

-- The operations of floats, of which the report takes a difference alone.
abbrev coin_float : Float Bool
coin_float = record {
  zero = false;
  lt = λ a b. false;
  le = λ a b. true;
  eq = λ a b. true;
  add = λ a b. a;
  sub = λ a b. a;
  mul = λ a b. a;
  div = λ a b. a;
}

abbrev alice_client : Entry
alice_client = record {
  address = 1;
  socket = 4;
  session = record new_session {
    client = record { logged_in = true; user_id = codes "alice"; should_dc = false; seq_num = 2 };
  };
}

abbrev a_trade : Event Bool
a_trade = record {
  exec_status = OrderStatus.filled;
  last_price = true;
  last_qty = true;
  order = record {
    user_id = codes "alice";
    order_id = codes "7";
    original_qty = true;
    remain_qty = false;
    avg_price = true;
    side = Side.buy;
    status = OrderStatus.filled;
  };
}

event_report-thrown_example :
    execution_on_input 0 (parsed (event_report ⦃fl = coin_float⦄ (codes "GLD") (codes "u") a_trade))
    ≡ thrown (codes "bad optional access")
unfolding create_event str_eq
event_report-thrown_example =
    event_report-thrown Bool coin_ok coin_float 0 1 (codes "GLD") (codes "u") (alice_client ∷ [])
      a_trade (event_report ⦃fl = coin_float⦄ (codes "GLD") (codes "u") a_trade) (inr refl) refl
