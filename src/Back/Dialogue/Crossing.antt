-- ===== src/Back/Dialogue/Crossing.antt =====
-- The log on of client/back at the server, the talk that follows it, and two messages that cross.
use fix4_2_protocol.Base.{ℕ, Str, codes, str_eq_iff, true, false, some, ◌+◌, ◌<◌, ◌≡◌, refl, arith}
use fix4_2_protocol.Core.Enum.{RejectReasonSession}
use fix4_2_protocol.Core.Float.{Float}
use fix4_2_protocol.Session.Client.{next_seq_number, expected_seq_number, login, set_seq_number}
use fix4_2_protocol.Session.HeaderValidation.{verify_user_specific, header_reject}
use fix4_2_protocol.Units.{UserSession, LogonRequest}
use fix4_2_protocol.Units.Logon.{log_in}
use fix4_2_protocol.Units.Output.{numbered, count_received, count_before, output_header}
use fix4_2_protocol.Back.{User, next_number, expected_number, user_login, set_number}
use fix4_2_protocol.Back.HeaderValidation.{back_verify_user, back_reject}
use fix4_2_protocol.Back.Network.{back_output, back_count_received, back_count_before, back_header}
use fix4_2_protocol.Back.Auth.{handle_logon}
use fix4_2_protocol.Back.Dialogue.{Line, Content, accepted, Turns, IsShared, log_on}
use fix4_2_protocol.Back.Dialogue.Agreement.{Agrees, silent, Turns-Agrees, Agrees-accepted}

module _ {F : Type 0} ⦃fl : Float F⦄ (num : ℕ → F) (whole : F → ℕ) (max_to : F)
    (provider : Str) where
  log_on-Agrees :
      (x y : Content) (request answer : LogonRequest) (s : UserSession) (u : User)
      → u.logged_in ≡ false
      → s.client.logged_in ≡ false
      → u.seq_num + 3 < 4294967296
      → Agrees provider (log_on num whole max_to provider x y request answer s u)
  unfolding log_on back_output back_count_before back_header back_count_received next_number log_in
      login set_seq_number numbered count_received count_before output_header next_seq_number
      handle_logon user_login set_number
  log_on-Agrees x y request answer s u e f b = (
    record { server_in = ground arith; client_in = ground arith; one_user = ground arith },
    silent refl refl (ground arith) (ground arith),
  )

  -- After the log on of a user and a client that are not logged in, in every run of turns in which a side sends only while no
  -- message is under way, and while numbers stay below 2^32 - 1, a message under way passes the check of
  -- sender, target and number at the side that it comes to.
  pub log_on-accepted :
      (x y : Content) (request answer : LogonRequest) (s : UserSession) (u : User) (l : Line)
      → u.logged_in ≡ false
      → s.client.logged_in ≡ false
      → u.seq_num + 3 < 4294967296
      → Turns provider (log_on num whole max_to provider x y request answer s u) l
      → accepted provider l ≡ true
  log_on-accepted x y request answer s u l e f b r =
      Agrees-accepted provider l
        (Turns-Agrees provider (log_on-Agrees x y request answer s u e f b) r)

-- Where both sides send before they receive, each refuses the message of the other for its number.
pub crossed_refused :
    (provider : Str) (x y : Content) (l : Line)
    → IsShared l
    → l.server.seq_num ≡ l.user.seq_num
    → l.user.seq_num + 2 < 4294967296
    → let (u, h) = back_output provider x.time x.msg_type x.size l.user in
      let (c, g) = numbered provider y.time y.msg_type y.size l.server in
      (verify_user_specific provider h (count_received c)
        ≡ some (
            header_reject h RejectReasonSession.value_out_of_range 34
              (codes "Inccorect message sequence number")))
      × (back_verify_user provider g (back_count_received u)
          ≡ some (
              back_reject g RejectReasonSession.value_out_of_range 34
                (codes "Inccorect message sequence number")))
unfolding verify_user_specific back_verify_user expected_seq_number expected_number back_output
    back_count_before back_header back_count_received next_number numbered count_received
    count_before output_header next_seq_number
crossed_refused provider x y l s e b = (
  ground (arith, str_eq_iff provider provider, str_eq_iff l.user.user_id l.server.user_id),
  ground (arith, str_eq_iff provider provider, str_eq_iff l.server.user_id l.user.user_id),
)
