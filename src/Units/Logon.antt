-- ===== src/Units/Logon.antt =====
-- server/src/ProcessUnit/User/Logon.cpp and Logout.cpp.
use fix4_2_protocol.Base.{ℕ, codes, Bool, true, ◌+◌, ◌%◌, if◌then◌else◌, ◌==◌, none, some}
use fix4_2_protocol.Core.Enum.{EncryptionMethod, RejectReasonSession, encryption_method_value}
use fix4_2_protocol.Core.Float.{Float, min}
use fix4_2_protocol.Message.Types.{Header, SessionReject}
use fix4_2_protocol.Session.Client.{login, set_seq_number, should_disconnect, word}
use fix4_2_protocol.Units.{
  UserSession, LogonRequest, Reply, logon_reply, logout_reply, reject_reply, Parsed, parsed,
  refused,
}

-- The reject of another encryption method; the reason is left out.
unfoldable pub encryption_reject : Header → SessionReject
encryption_reject h = record {
  ref_seq_num = h.msg_seq_num;
  ref_tag_id = none;
  ref_msg_type = some h.msg_type;
  session_reject_reason = none;
  text = some (codes "Encryption method not supported");
}

unfoldable pub logged_in_reject : Header → SessionReject
logged_in_reject h = record {
  ref_seq_num = h.msg_seq_num;
  ref_tag_id = none;
  ref_msg_type = some h.msg_type;
  session_reject_reason = some RejectReasonSession.invalid_msg_type;
  text = some (codes "User is already logged in");
}

-- `verifyMessage`
unfoldable pub encryption_supported : LogonRequest → Bool
unfolding encryption_method_value
encryption_supported l =
    encryption_method_value l.encrypt_method
    == encryption_method_value EncryptionMethod.no_encryption

-- `onInput` of the logout.
unfoldable pub logout_on_input : {A : Type 0} → Parsed A → UserSession → UserSession × Reply
unfolding should_disconnect
logout_on_input (refused r) s = (s, reject_reply r)
logout_on_input (parsed _) s = (record s { client = should_disconnect true s.client }, logout_reply)

-- `num` and `whole` are the casts between `uint32_t` and `float`, `max_to` stands in the configuration.
module _ {F : Type 0} ⦃fl : Float F⦄ (num : ℕ → F) (whole : F → ℕ) (max_to : F) where
  -- `std::max(1.f, std::min(MaxTO, HeartBtInt))`, made a whole number.
  unfoldable pub elapsing : ℕ → ℕ
  elapsing interval =
      let wanted = min max_to (num interval) in
      whole (if fl.lt (num 1) wanted then wanted else num 1)

  -- The client logs in.
  unfoldable pub log_in : ℕ → Header → LogonRequest → UserSession → UserSession × Reply
  unfolding elapsing login set_seq_number
  log_in now h l s =
      let e = elapsing l.heart_bt_int in
      (
        record {
          client = set_seq_number ((h.msg_seq_num + 1) % word) (login h.sender_comp_id s.client);
          info = record s.info { since = now; elapsing = e };
        },
        logon_reply (record { encrypt_method = EncryptionMethod.no_encryption; heart_bt_int = e }),
      )

  -- `onInput` of the log on.
  unfoldable pub logon_on_input :
      ℕ → Header → Parsed LogonRequest → UserSession → UserSession × Reply
  unfolding log_in encryption_supported encryption_reject logged_in_reject
  logon_on_input now h (refused r) s = (s, reject_reply r)
  logon_on_input now h (parsed l) s =
      if encryption_supported l
      then (if s.client.logged_in then (s, reject_reply (logged_in_reject h)) else log_in now h l s)
      else (s, reject_reply (encryption_reject h))
