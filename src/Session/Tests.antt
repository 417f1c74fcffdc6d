-- ===== src/Session/Tests.antt =====
-- The header check and the router on a new order, and each theorem at a concrete input.
use fix4_2_protocol.Base.{none, ◌%◌, ℕ, codes, str_eq, ◌≡◌, ◌⊎◌, refl, true, false, [], ◌∷◌, ◌++◌}
use fix4_2_protocol.Message.Types.{SessionReject}
use fix4_2_protocol.Session.{Unparsed, Queues}
use fix4_2_protocol.Session.Client.{expected_seq_number, InternalClient}
use fix4_2_protocol.Session.HeaderValidation.{type_known, header_on_input, send_reject}
use fix4_2_protocol.Message.Convert.Unsigned.{unsigned_to_fix}
use fix4_2_protocol.Session.Checksum.{
  verify_check_sum, received_sum, sum_from, verify_check_sum-add_check_sum,
}
use fix4_2_protocol.Session.Router.{router_on_input}
use fix4_2_protocol.Session.Gate.{
  acceptable, waiting, header_on_input_lem, router_on_input_lem, router_on_input-waiting,
}

abbrev alice : InternalClient
alice = record { logged_in = true; user_id = codes "alice"; should_dc = false; seq_num = 3 }

abbrev an_order : Unparsed ℕ
an_order = record {
  client = 0;
  receive_time = 0;
  header = record {
    begin_string = codes "FIX.4.2";
    body_length = 0;
    msg_type = b'D';
    sender_comp_id = codes "alice";
    target_comp_id = codes "exchange";
    msg_seq_num = 2;
    sending_time = 0;
  };
  message = 7;
}

abbrev no_messages : Queues ℕ
no_messages = record {
  router = [];
  logon = [];
  logout = [];
  heartbeat = [];
  market_router = [];
  error = [];
}

order_passes : acceptable (codes "exchange") alice an_order.header ≡ true
unfolding str_eq type_known expected_seq_number
order_passes = refl

header_on_input_lem_example :
    ((acceptable (codes "exchange") alice an_order.header ≡ true)
      × (header_on_input (codes "exchange") alice an_order no_messages
          ≡ record no_messages { router = [] ++ an_order ∷ [] }))
    ⊎ ((acceptable (codes "exchange") alice an_order.header ≡ false)
        × ((x : SessionReject) × (header_on_input (codes "exchange") alice an_order no_messages
              ≡ send_reject an_order x no_messages)
            × (x.ref_seq_num ≡ 2)))
header_on_input_lem_example = header_on_input_lem (codes "exchange") alice an_order no_messages

router_on_input_lem_example :
    (router_on_input alice an_order no_messages).market_router ≡ an_order ∷ []
router_on_input_lem_example = router_on_input_lem alice an_order no_messages

router_on_input-waiting_example :
    (waiting (router_on_input alice an_order no_messages) ≡ 1)
    × ((router_on_input alice an_order no_messages).router ≡ [])
router_on_input-waiting_example = router_on_input-waiting alice an_order no_messages

verify_check_sum-add_check_sum_example :
    verify_check_sum
      (received_sum (codes "8=FIX.4.2" ++ 1 ∷ []))
      (codes "10", unsigned_to_fix [] (sum_from 0 (codes "8=FIX.4.2" ++ 1 ∷ []) % 256))
    ≡ none
verify_check_sum-add_check_sum_example = verify_check_sum-add_check_sum (codes "8=FIX.4.2")
