-- ===== src/Session/HeaderValidation.antt =====
-- server/src/ProcessUnit/HeaderValidation.cpp: the checks of a header.
use fix4_2_protocol.Base.{
  ℕ, Str, codes, str_eq, ◌==◌, Bool, not, ◌||◌, if◌then◌else◌, Option, none, some, [], ◌∷◌, ◌++◌,
}
use fix4_2_protocol.Core.Enum.{RejectReasonSession}
use fix4_2_protocol.Message.Types.{Header, SessionReject}
use fix4_2_protocol.Message.MsgType
use fix4_2_protocol.Session.{Unparsed, Queues}
use fix4_2_protocol.Session.Client.{InternalClient, expected_seq_number}

-- The rejects of both checks.
unfoldable pub header_reject : Header → RejectReasonSession → ℕ → Str → SessionReject
header_reject h reason tag text = record {
  ref_seq_num = h.msg_seq_num;
  ref_tag_id = some tag;
  ref_msg_type = some h.msg_type;
  session_reject_reason = some reason;
  text = some text;
}

-- The `switch` of `verifyPositionValue`.
unfoldable pub type_known : ℕ → Bool
type_known t =
    (t == MsgType.heart_beat)
    || (t == MsgType.test_request)
    || (t == MsgType.session_reject)
    || (t == MsgType.logout)
    || (t == MsgType.execution_report)
    || (t == MsgType.business_reject)
    || (t == MsgType.logon)
    || (t == MsgType.new_order_single)
    || (t == MsgType.order_cancel_request)

-- `verifyPositionValue`
unfoldable pub verify_position_value : Header → Option SessionReject
unfolding header_reject type_known
verify_position_value h =
    if not (str_eq h.begin_string (codes "FIX.4.2"))
    then some (
        header_reject h RejectReasonSession.value_out_of_range 8
          (codes "Incorrect begin string. Expected FIX.4.2"))
    else if type_known h.msg_type
    then none
    else some (
        header_reject h RejectReasonSession.invalid_msg_type 35
          (codes "Not supported message type"))

-- `verifyUserSpecific`; the provider's name is in the configuration.
unfoldable pub verify_user_specific : Str → Header → InternalClient → Option SessionReject
unfolding header_reject expected_seq_number
verify_user_specific provider h c =
    if not (str_eq h.target_comp_id provider)
    then some
        (header_reject h RejectReasonSession.value_out_of_range 56 (codes "Incorrect target Id"))
    else if not c.logged_in
    then none
    else if not (str_eq h.sender_comp_id c.user_id)
    then some
        (header_reject h RejectReasonSession.value_out_of_range 49 (codes "Incorrect sender Id"))
    else if not (h.msg_seq_num == expected_seq_number c)
    then some (
        header_reject h RejectReasonSession.value_out_of_range 34
          (codes "Inccorect message sequence number"))
    else none

module _ {M : Type 0} where
  -- `m_error.append`
  unfoldable pub send_reject : Unparsed M → SessionReject → Queues M → Queues M
  send_reject i r q = record q {
    error = q.error ++ record { client = i.client; receive_time = i.receive_time; reject = r } ∷ [];
  }

  -- `onInput`: `c` is the client that the input points at.
  unfoldable pub header_on_input : Str → InternalClient → Unparsed M → Queues M → Queues M
  unfolding verify_position_value verify_user_specific send_reject
  header_on_input provider c i q = elim (verify_position_value i.header) [
    | some r ↦ send_reject i r q
    | none ↦ elim (verify_user_specific provider i.header c) [
      | some r ↦ send_reject i r q
      | none ↦ record q { router = q.router ++ i ∷ [] }
    ]
  ]
