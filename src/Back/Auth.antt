-- ===== src/Back/Auth.antt =====
-- client/back/src/ProcessUnit/User: Auth.cpp and HeartBeat.cpp. A parser's result is an argument.
use fix4_2_protocol.Base.{
  ℕ, Str, true, none, some, List, [], ◌∷◌, ◌+◌, ◌-◌, ◌/◌, ◌%◌, ◌^◌, leb, if◌then◌else◌,
}
use fix4_2_protocol.Message.Types.{Header}
use fix4_2_protocol.Ipc.Types.{LogonMessage}
use fix4_2_protocol.Units.{
  LogonRequest, Reply, logout_reply, heart_beat_reply, reject_reply, Parsed, parsed, refused,
}
use fix4_2_protocol.Back.{User, set_number, user_login, user_should_disconnect}

-- What a unit sends: messages for the server, and notices of a log on for the front end.
pub record Sent : Type 0 where
  pub to_server : List Reply
  pub to_front : List LogonMessage

abbrev nothing : Sent
nothing = record { to_server = []; to_front = [] }

abbrev to_server : Reply → Sent
to_server r = record { to_server = r ∷ []; to_front = [] }

-- `handleLogon`
unfoldable pub handle_logon : ℕ → Header → Parsed LogonRequest → User → User × Sent
unfolding set_number user_login
handle_logon now h (refused r) u = (u, to_server (reject_reply r))
handle_logon now h (parsed l) u =
    let timed = record u { elapsing = l.heart_bt_int; since = now } in
    let u' = user_login h.target_comp_id (set_number ((h.msg_seq_num + 1) % 2 ^ 32) timed) in
    (
      u',
      record {
        to_server = [];
        to_front =
            record { user_id = u'.user_id; seq_num = u'.seq_num % 2 ^ 32; heart_beat = u'.elapsing }
            ∷ [];
      },
    )

-- `handleLogout`
unfoldable pub handle_logout : {A : Type 0} → Parsed A → User → User × Sent
unfolding user_should_disconnect
handle_logout (refused r) u = (u, to_server (reject_reply r))
handle_logout (parsed _) u =
    if u.logout_req then (u, nothing) else (user_should_disconnect true u, to_server logout_reply)

-- `handleTestRequest` and `handleHeartBeat` of the heartbeat unit.
unfoldable pub handle_test_request : Parsed Str → Sent
handle_test_request (refused r) = to_server (reject_reply r)
handle_test_request (parsed value) = to_server (heart_beat_reply (some value))

unfoldable pub handle_heart_beat : {A : Type 0} → Parsed A → Sent
handle_heart_beat (refused r) = to_server (reject_reply r)
handle_heart_beat (parsed _) = nothing

-- A round of `heartbeatLoop` at the time `now`, which is not before the last heartbeat; `second` is the number of units in a
-- second.
unfoldable pub heart_beat_round : ℕ → ℕ → User → User × Sent
heart_beat_round second now u =
    if leb u.elapsing ((now - u.since) / second)
    then (record u { since = now }, to_server (heart_beat_reply none))
    else (u, nothing)
