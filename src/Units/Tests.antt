-- ===== src/Units/Tests.antt =====
-- The units on concrete sessions, and each theorem at a concrete input.
use fix4_2_protocol.Base.{◌++◌, codes, true, false, none, some, [], ◌∷◌, ◌≡◌, ◌≢◌, ◌≤◌, refl, arith}
use fix4_2_protocol.Core.Float.{naturals, naturals-IsExact}
use fix4_2_protocol.Core.Enum.{EncryptionMethod}
use fix4_2_protocol.Message.Types.{Header}
use fix4_2_protocol.OrderBook.{undefined}
use fix4_2_protocol.Units.{UserSession, LogonRequest, parsed, logon_reply}
use fix4_2_protocol.Units.Logon.{logon_on_input, elapsing}
use fix4_2_protocol.Units.HeartBeat.{
  process_heart_beat, lost, watch_client, open_test, fill_test, leave, test, dropped, quiet,
}
use fix4_2_protocol.Units.Store.{Entry, new_session, remove_all}
use fix4_2_protocol.Units.Output.{Waiting, closed_outputs, closed_outputs_undefined}
use fix4_2_protocol.Units.Invariant.{
  none_yet, further, logs_on, process_heart_beat-open_test, elapsing_bounds, watch_rounds,
  watch_rounds_silent,
}

abbrev the_header : Header
the_header = record {
  begin_string = codes "FIX.4.2";
  body_length = 0;
  msg_type = b'A';
  sender_comp_id = codes "alice";
  target_comp_id = codes "exchange";
  msg_seq_num = 1;
  sending_time = 0;
}

abbrev the_request : LogonRequest
the_request = record { encrypt_method = EncryptionMethod.no_encryption; heart_bt_int = 30 }

-- The interval is cut to the largest, 10 seconds.
logon_reply_example :
    (logon_on_input (λ n. n) (λ n. n) 10 5 the_header (parsed the_request) new_session).1
    ≡ logon_reply (record { encrypt_method = EncryptionMethod.no_encryption; heart_bt_int = 10 })
unfolding logon_on_input
logon_reply_example = refl

abbrev alice_session : UserSession
alice_session = record {
  client = record { logged_in = true; user_id = codes "alice"; should_dc = false; seq_num = 2 };
  info = record { elapsing = 10; test_request = false; test_value = none; since = 0 };
}

abbrev alice_entry : Entry
alice_entry = record { address = 1; socket = 4; session = alice_session }

abbrev bob_entry : Entry
bob_entry = record { address = 2; socket = 5; session = new_session }

abbrev waiting_one : Waiting
waiting_one = record { time = 0; msg_type = b'8'; size = 100 }

closed_outputs_undefined_example :
    remove_all
      (closed_outputs (codes "exchange") 1 (waiting_one ∷ waiting_one ∷ []) alice_session)
      (alice_entry ∷ bob_entry ∷ [])
    ≡ undefined
closed_outputs_undefined_example =
    closed_outputs_undefined (codes "exchange") 1 (waiting_one ∷ waiting_one ∷ []) alice_session
      (alice_entry ∷ bob_entry ∷ []) (omega arith) ((refl, tt), (tt, tt))

abbrev joined : UserSession
joined = (logon_on_input (λ n. n) (λ n. n) 10 5 the_header (parsed the_request) new_session).0

process_heart_beat-open_test_example :
    (process_heart_beat 0 41 (parsed (some (codes "x"))) (open_test 40 joined)
      ≡ (open_test 40 joined, lost))
    × ((process_heart_beat 0 41
          (parsed (some (codes "x")))
          (watch_client 1 (λ n. n ∷ []) 40 joined).0).1
        ≢ lost)
unfolding watch_client logon_on_input
process_heart_beat-open_test_example =
    process_heart_beat-open_test (λ n. n) (λ n. n) 10 0 41 1 40 (λ n. n ∷ []) (some (codes "x"))
      joined (further none_yet (logs_on 5 the_header (parsed the_request) new_session)) refl

elapsing_bounds_example :
    (1 ≤ elapsing ⦃fl = naturals⦄ (λ n. n) (λ n. n) 10 30)
    × (elapsing ⦃fl = naturals⦄ (λ n. n) (λ n. n) 10 30 ≤ 10)
    × (elapsing ⦃fl = naturals⦄ (λ n. n) (λ n. n) 10 30 ≤ 30)
elapsing_bounds_example =
    elapsing_bounds naturals (λ n. n) (λ n. n) 10 30 naturals-IsExact (omega arith) (omega arith)

watch_rounds_silent_example :
    watch_rounds 1
      (λ n. n ∷ [])
      ((4 ∷ 8 ∷ []) ++ 11 ∷ ((12 ∷ 20 ∷ []) ++ 22 ∷ (33 ∷ [])))
      alice_session
    ≡ (
      leave (fill_test (11 ∷ []) (open_test 11 alice_session)),
      quiet ∷ quiet ∷ test (11 ∷ []) ∷ quiet ∷ quiet ∷ dropped ∷ quiet ∷ [],
    )
watch_rounds_silent_example =
    watch_rounds_silent 1 (λ n. n ∷ []) 11 22 (4 ∷ 8 ∷ []) (12 ∷ 20 ∷ []) (33 ∷ []) alice_session
      refl refl refl (omega arith, (omega arith, tt)) (omega arith) (omega arith, (omega arith, tt))
      (omega arith)
