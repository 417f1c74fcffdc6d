-- ===== src/Units/HeartBeat.antt =====
-- server/src/ProcessUnit/User/HeartBeat.cpp.
use fix4_2_protocol.Base.{
  ℕ, Str, codes, str_eq, Bool, true, false, not, ◌||◌, ltb, ◌+◌, ◌*◌, if◌then◌else◌, Option, none,
  some,
}
use fix4_2_protocol.Core.Enum.{RejectReasonSession}
use fix4_2_protocol.Message.MsgType
use fix4_2_protocol.Message.Types.{SessionReject}
use fix4_2_protocol.Session.Client.{disconnect, should_disconnect}
use fix4_2_protocol.Units.{
  UserSession, Reply, heart_beat_reply, reject_reply, Parsed, parsed, refused,
}

-- The rejects of `processHeartBeat`. The number of the message is written to RefTagId and then overwritten by the type:
-- RefSeqNum keeps what the constructor gives it, which is `unset`.
unfoldable pub test_reject : ℕ → RejectReasonSession → Str → SessionReject
test_reject unset reason text = record {
  ref_seq_num = unset;
  ref_tag_id = some MsgType.session_reject;
  ref_msg_type = none;
  session_reject_reason = some reason;
  text = some text;
}

-- What `processHeartBeat` ends with: the log line of a lost value, and no reply, is `lost`.
pub data Answer : Type 0 where
  reply : Reply → Answer
  lost : Answer

-- A heartbeat is taken, and answered with one.
unfoldable pub beat : ℕ → UserSession → UserSession × Answer
beat receive_time s =
    (record s { info = record s.info { since = receive_time } }, reply (heart_beat_reply none))

-- The heartbeat that follows a test request, against the value of that request.
unfoldable pub check_test : ℕ → ℕ → Option Str → Str → UserSession → UserSession × Answer
unfolding beat test_reject
check_test unset receive_time none value s = (
  s,
  reply (
      reject_reply (
        test_reject unset RejectReasonSession.required_tag_missing
          (codes "Missing Test request Id"))),
)
check_test unset receive_time (some given) value s =
    if not (str_eq value given)
    then (
      s,
      reply (
          reject_reply (
            test_reject unset RejectReasonSession.value_out_of_range
              (codes "Incorrect Test Value"))),
    )
    else beat receive_time
        (record s { info = record s.info { test_request = false; test_value = none } })

unfoldable pub check_info :
    ℕ → ℕ → Option Str → Bool → Option Str → UserSession → UserSession × Answer
unfolding beat check_test
check_info unset receive_time given false value s = beat receive_time s
check_info unset receive_time given true none s = (s, lost)
check_info unset receive_time given true (some value) s =
    check_test unset receive_time given value s

-- `processHeartBeat`: of the message the parser gives the test request id.
unfoldable pub process_heart_beat : ℕ → ℕ → Parsed (Option Str) → UserSession → UserSession × Answer
unfolding check_info
process_heart_beat unset receive_time (refused r) s = (s, reply (reject_reply r))
process_heart_beat unset receive_time (parsed given) s =
    check_info unset receive_time given s.info.test_request s.info.test_value s

-- `processTestRequest`
unfoldable pub process_test_request : Parsed Str → Reply
process_test_request (refused r) = reject_reply r
process_test_request (parsed value) = heart_beat_reply (some value)

-- What a round of `handle` does with a client.
pub data Watch : Type 0 where
  quiet : Watch
  test : Str → Watch
  dropped : Watch

-- `removeClient` begins so; the client leaves the store in a task of its own.
unfoldable pub leave : UserSession → UserSession
unfolding disconnect should_disconnect
leave s = record s { client = disconnect (should_disconnect true s.client) }

-- The writes of a round that begins a test, in their order. No lock holds off `processHeartBeat`, which runs on another
-- thread, between the first and the second.
unfoldable pub open_test : ℕ → UserSession → UserSession
open_test now s = record s { info = record s.info { since = now; test_request = true } }

unfoldable pub fill_test : Str → UserSession → UserSession
fill_test value s = record s { info = record s.info { test_value = some value } }

-- One client of a round at the time `now`, with no other thread between its writes; `second` is the number of units in a second, and `stamp` writes a time.
unfoldable pub watch_client : ℕ → (ℕ → Str) → ℕ → UserSession → UserSession × Watch
unfolding leave open_test fill_test
watch_client second stamp now s =
    if s.client.should_dc || not s.client.logged_in
    then (s, quiet)
    else if ltb (s.info.since + s.info.elapsing * second) now
    then (if s.info.test_request
        then (leave s, dropped)
        else (fill_test (stamp now) (open_test now s), test (stamp now)))
    else (s, quiet)
