-- ===== src/Back/HeaderValidation.antt =====
-- client/back/src/ProcessUnit/HeaderValidation.cpp: the checks of a header that the server sent.
use fix4_2_protocol.Base.{
  ℕ, Str, codes, str_eq, ◌==◌, Bool, not, ◌||◌, if◌then◌else◌, Option, none, some, [], ◌∷◌, ◌++◌,
  List,
}
use fix4_2_protocol.Core.Enum.{RejectReasonSession}
use fix4_2_protocol.Message.Types.{Header, SessionReject}
use fix4_2_protocol.Message.MsgType
use fix4_2_protocol.Back.{User, expected_number}

unfoldable pub back_reject : Header → RejectReasonSession → ℕ → Str → SessionReject
back_reject h reason tag text = record {
  ref_seq_num = h.msg_seq_num;
  ref_tag_id = some tag;
  ref_msg_type = some h.msg_type;
  session_reject_reason = some reason;
  text = some text;
}

-- The `switch` of `verifyPositionValue`.
unfoldable pub back_type_known : ℕ → Bool
back_type_known t =
    (t == MsgType.heart_beat)
    || (t == MsgType.test_request)
    || (t == MsgType.session_reject)
    || (t == MsgType.logout)
    || (t == MsgType.execution_report)
    || (t == MsgType.business_reject)
    || (t == MsgType.logon)

-- `verifyPositionValue`
unfoldable pub back_verify_position : Header → Option SessionReject
unfolding back_reject back_type_known
back_verify_position h =
    if not (str_eq h.begin_string (codes "FIX.4.2"))
    then some (
        back_reject h RejectReasonSession.value_out_of_range 8
          (codes "Incorrect begin string. Expected FIX.4.2"))
    else if back_type_known h.msg_type
    then none
    else some
        (back_reject h RejectReasonSession.invalid_msg_type 35 (codes "Not supported message type"))

-- `verifyUserSpecific`: the sender is to be the server, and the target the user.
unfoldable pub back_verify_user : Str → Header → User → Option SessionReject
unfolding back_reject expected_number
back_verify_user provider h u =
    if not (str_eq h.sender_comp_id provider)
    then some
        (back_reject h RejectReasonSession.value_out_of_range 56 (codes "Incorrect target Id"))
    else if not u.logged_in
    then none
    else if not (str_eq h.target_comp_id u.user_id)
    then some
        (back_reject h RejectReasonSession.value_out_of_range 49 (codes "Incorrect sender Id"))
    else if not (h.msg_seq_num == expected_number u)
    then some (
        back_reject h RejectReasonSession.value_out_of_range 34
          (codes "Inccorect message sequence number"))
    else none

-- The queues of the check: messages that pass, and rejects with the time of their message.
pub record BackQueues (M : Type 0) : Type 0 where
  pub output : List (ℕ × Header × M)
  pub error : List (ℕ × SessionReject)

-- `onInput` of a message with its time.
unfoldable pub back_header_on_input :
    {M : Type 0} → Str → User → ℕ → Header → M → BackQueues M → BackQueues M
unfolding back_verify_position back_verify_user
back_header_on_input provider u time h m q = elim (back_verify_position h) [
  | some r ↦ record q { error = q.error ++ (time, r) ∷ [] }
  | none ↦ elim (back_verify_user provider h u) [
    | some r ↦ record q { error = q.error ++ (time, r) ∷ [] }
    | none ↦ record q { output = q.output ++ (time, h, m) ∷ [] }
  ]
]
