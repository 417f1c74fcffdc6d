-- ===== src/Session/Router.antt =====
-- server/src/ProcessUnit/Router.cpp: which unit gets a message.
use fix4_2_protocol.Base.{Str, codes, ◌==◌, ◌||◌, if◌then◌else◌, none, some, [], ◌∷◌, ◌++◌}
use fix4_2_protocol.Core.Enum.{RejectReasonSession}
use fix4_2_protocol.Message.Types.{SessionReject}
use fix4_2_protocol.Message.MsgType
use fix4_2_protocol.Session.{Unparsed, Queues}
use fix4_2_protocol.Session.Client.{InternalClient}
use fix4_2_protocol.Session.HeaderValidation.{send_reject}

module _ {M : Type 0} where
  -- The rejects of `treatUnknown` and `treatRequireLogin`, which differ in the text.
  unfoldable pub type_reject : Unparsed M → Str → SessionReject
  type_reject i text = record {
    ref_seq_num = i.header.msg_seq_num;
    ref_tag_id = some 35;
    ref_msg_type = none;
    session_reject_reason = some RejectReasonSession.value_out_of_range;
    text = some text;
  }

  -- `treatUnknown`
  unfoldable pub treat_unknown : Unparsed M → Queues M → Queues M
  unfolding send_reject type_reject
  treat_unknown i q = send_reject i (type_reject i (codes "Unknown message type")) q

  -- `treatRequireLogin`
  unfoldable pub treat_require_login : Unparsed M → Queues M → Queues M
  unfolding send_reject type_reject
  treat_require_login i q =
      send_reject i (type_reject i (codes "Accesing login required features will not logged in")) q

  -- The `switch` of `onInput`; `treatReject` only writes a log line.
  unfoldable pub route_logged_in : Unparsed M → Queues M → Queues M
  unfolding treat_unknown
  route_logged_in i q =
      let t = i.header.msg_type in
      if (t == MsgType.test_request) || (t == MsgType.heart_beat)
      then record q { heartbeat = q.heartbeat ++ i ∷ [] }
      else if t == MsgType.logout
      then record q { logout = q.logout ++ i ∷ [] }
      else if (t == MsgType.new_order_single) || (t == MsgType.order_cancel_request)
      then record q { market_router = q.market_router ++ i ∷ [] }
      else if t == MsgType.session_reject
      then q
      else treat_unknown i q

  -- `onInput`: `c` is the client that the input points at.
  unfoldable pub router_on_input : InternalClient → Unparsed M → Queues M → Queues M
  unfolding route_logged_in treat_require_login
  router_on_input c i q =
      if i.header.msg_type == MsgType.logon
      then record q { logon = q.logon ++ i ∷ [] }
      else if c.logged_in
      then route_logged_in i q
      else treat_require_login i q
