-- ===== src/Back/Network.antt =====
-- client/back/src/ProcessUnit/Network: the header and the count of a message that TcpOutput.cpp sends, and the count of one
-- that TcpInput.cpp receives.
use fix4_2_protocol.Base.{ℕ, Str, codes, ◌%◌, ◌^◌, if◌then◌else◌}
use fix4_2_protocol.Message.Types.{Header}
use fix4_2_protocol.Session.Input.{HeaderLibrary, BuiltMessage, build_header}
use fix4_2_protocol.Back.{User, next_number}

-- `runtime`: a message that arrives while the user is logged in is counted.
unfoldable pub back_count_received : User → User
unfolding next_number
back_count_received u = if u.logged_in then next_number u else u

unfoldable pub back_count_before : User → User
unfolding next_number
back_count_before u = if u.logged_in then u else next_number u

-- The number of the message is of 32 bits.
unfoldable pub back_header : Str → ℕ → ℕ → ℕ → User → Header
back_header provider now msg_type size u = record {
  begin_string = codes "FIX.4.2";
  body_length = size;
  msg_type = msg_type;
  sender_comp_id = u.user_id;
  target_comp_id = provider;
  msg_seq_num = u.seq_num % 2 ^ 32;
  sending_time = now;
}

-- `onInput`: the header of the message that is sent. Whether the socket takes it changes only the log.
unfoldable pub back_output : Str → ℕ → ℕ → ℕ → User → User × Header
unfolding back_count_before back_header next_number
back_output provider now msg_type size u =
    let u' = back_count_before u in (next_number u', back_header provider now msg_type size u')

-- `buildHeader`: the code of the server's TCPInput.cpp, with the user's number.
unfoldable pub back_build_header : {H : Type 0} → HeaderLibrary H → User → Str → BuiltMessage H
unfolding build_header
back_build_header lib u text = build_header lib (u.seq_num % 2 ^ 32) text
