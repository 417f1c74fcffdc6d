-- ===== src/Session/Gate.antt =====
-- What of a client's messages gets through the header check and the router.
use fix4_2_protocol.Base.{
  ℕ, Str, codes, str_eq, ◌==◌, Bool, true, false, not, ◌&&◌, ◌||◌, if◌then◌else◌, none, some, [],
  ◌∷◌, ◌++◌, ◌≡◌, ◌⊎◌, inl, inr, refl, arith, Option-cases, length, length-append, ◌+◌,
}
use fix4_2_protocol.Message.MsgType
use fix4_2_protocol.Message.Types.{Header, SessionReject}
use fix4_2_protocol.Session.{Unparsed, Queues}
use fix4_2_protocol.Session.Client.{InternalClient, expected_seq_number}
use fix4_2_protocol.Session.HeaderValidation.{
  header_on_input, verify_position_value, verify_user_specific, type_known, send_reject,
  header_reject,
}
use fix4_2_protocol.Session.Router.{
  router_on_input, route_logged_in, treat_unknown, treat_require_login,
}

-- The headers that the check lets pass: the version, a known type, the provider's name, and from a
-- client that is logged in its own name and the number of the message that has just been counted.
abbrev pub in_session : InternalClient → Header → Bool
in_session c h = str_eq h.sender_comp_id c.user_id && (h.msg_seq_num == expected_seq_number c)

abbrev pub acceptable : Str → InternalClient → Header → Bool
acceptable provider c h =
    str_eq h.begin_string (codes "FIX.4.2")
    && type_known h.msg_type
    && str_eq h.target_comp_id provider
    && (not c.logged_in || in_session c h)

position_lem :
    (provider : Str) (c : InternalClient) (h : Header) (r : SessionReject)
    → verify_position_value h ≡ some r
    → (acceptable provider c h ≡ false) × (r.ref_seq_num ≡ h.msg_seq_num)
unfolding verify_position_value header_reject
position_lem provider c h r e = (ground arith, ground arith)

user_lem :
    (provider : Str) (c : InternalClient) (h : Header) (r : SessionReject)
    → verify_user_specific provider h c ≡ some r
    → (acceptable provider c h ≡ false) × (r.ref_seq_num ≡ h.msg_seq_num)
unfolding verify_user_specific header_reject
user_lem provider c h r e = (ground arith, ground arith)

passed :
    (provider : Str) (c : InternalClient) (h : Header)
    → verify_position_value h ≡ none
    → verify_user_specific provider h c ≡ none
    → acceptable provider c h ≡ true
unfolding verify_position_value verify_user_specific
passed provider c h e f = ground arith

module _ {M : Type 0} (provider : Str) (c : InternalClient) (i : Unparsed M) (q : Queues M) where
  -- The header check hands a message to the router exactly where its header is acceptable: version
  -- FIX.4.2, a known type, the provider as target, and from a client that is logged in its own name as
  -- sender and the sequence number before its next. Every other message is answered with one reject that
  -- refers to its sequence number. No other queue changes.
  pub header_on_input_lem :
      ((acceptable provider c i.header ≡ true)
        × (header_on_input provider c i q ≡ record q { router = q.router ++ i ∷ [] }))
      ⊎ ((acceptable provider c i.header ≡ false)
          × ((x : SessionReject) × (header_on_input provider c i q ≡ send_reject i x q)
              × (x.ref_seq_num ≡ i.header.msg_seq_num)))
  unfolding header_on_input
  header_on_input_lem = elim (Option-cases (verify_position_value i.header)) [
    | inr (r, e) ↦
        let (no_pass, same) = position_lem provider c i.header r e in
        inr (no_pass, (r, rw (header_on_input, e) refl, same))
    | inl e ↦ elim (Option-cases (verify_user_specific provider i.header c)) [
      | inr (r, f) ↦
          let (no_pass, same) = user_lem provider c i.header r f in
          inr (no_pass, (r, rw (header_on_input, e, f) refl, same))
      | inl f ↦ inl (passed provider c i.header e f, rw (header_on_input, e, f) refl)
    ]
  ]

-- The messages that wait in the queues after the router.
abbrev pub waiting : {M : Type 0} → Queues M → ℕ
waiting q =
    length q.logon
    + (length q.logout + (length q.heartbeat + (length q.market_router + length q.error)))

module _ {M : Type 0} (c : InternalClient) (i : Unparsed M) (q : Queues M) where
  -- The router hands a message to the market exactly where its client is logged in and it is a
  -- new order or a cancel request.
  pub router_on_input_lem : (router_on_input c i q).market_router ≡ (
      if c.logged_in
        && ((i.header.msg_type == MsgType.new_order_single)
            || (i.header.msg_type == MsgType.order_cancel_request))
      then q.market_router ++ i ∷ []
      else q.market_router)
  unfolding router_on_input route_logged_in treat_unknown treat_require_login send_reject
  router_on_input_lem = ground arith

  -- The router puts every message into one queue, as a message or as a reject, but for the session
  -- rejects of a client that is logged in, which it drops; the queue it reads from does not change.
  pub router_on_input-waiting :
      (waiting (router_on_input c i q) ≡ (
        if c.logged_in && (i.header.msg_type == MsgType.session_reject)
        then waiting q
        else waiting q + 1))
      × ((router_on_input c i q).router ≡ q.router)
  unfolding router_on_input route_logged_in treat_unknown treat_require_login send_reject
  router_on_input-waiting = (grind (arith, length-append), ground arith)
