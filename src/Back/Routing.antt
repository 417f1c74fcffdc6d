-- ===== src/Back/Routing.antt =====
-- client/back/src/ProcessUnit/Router.cpp: which unit gets a message of the server.
use fix4_2_protocol.Base.{ℕ, codes, ◌==◌, ◌||◌, if◌then◌else◌, some, List, [], ◌∷◌, ◌++◌}
use fix4_2_protocol.Core.Enum.{RejectReasonSession}
use fix4_2_protocol.Message.MsgType
use fix4_2_protocol.Message.Types.{Header, SessionReject}

module _ (M : Type 0) where
  -- A message with its time and its header.
  pub record Incoming : Type 0 where
    pub time : ℕ
    pub header : Header
    pub message : M

  pub record Units : Type 0 where
    pub heartbeat : List Incoming
    pub auth : List Incoming
    pub execution : List Incoming
    pub error : List (ℕ × SessionReject)

module _ {M : Type 0} where
  -- `unknownMessage`
  unfoldable pub unknown_message : Incoming M → Units M → Units M
  unknown_message i q = record q {
    error =
        q.error
        ++ (
          i.time,
          record {
            ref_seq_num = i.header.msg_seq_num;
            ref_tag_id = some 35;
            ref_msg_type = some i.header.msg_type;
            session_reject_reason = some RejectReasonSession.invalid_msg_type;
            text = some (codes "Unknown message type");
          },
        )
          ∷ [];
  }

  -- `onInput`; `treatReject` and `treatBusinessReject` do nothing.
  unfoldable pub back_router_on_input : Incoming M → Units M → Units M
  unfolding unknown_message
  back_router_on_input i q =
      let t = i.header.msg_type in
      if (t == MsgType.logon) || (t == MsgType.logout)
      then record q { auth = q.auth ++ i ∷ [] }
      else if (t == MsgType.heart_beat) || (t == MsgType.test_request)
      then record q { heartbeat = q.heartbeat ++ i ∷ [] }
      else if t == MsgType.execution_report
      then record q { execution = q.execution ++ i ∷ [] }
      else if (t == MsgType.business_reject) || (t == MsgType.session_reject)
      then q
      else unknown_message i q
