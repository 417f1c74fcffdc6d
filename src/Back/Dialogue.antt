-- ===== src/Back/Dialogue.antt =====
-- The numbers of the messages between client/back and the server: each side has one counter for the messages of both, counts
-- what it sends (TcpOutput.cpp, TCPOutput.cpp) and what it receives (TcpInput.cpp, TCPInput.cpp), and its header check
-- compares a message with the counter less one.
use fix4_2_protocol.Base.{
  ℕ, Str, str_eq, Bool, true, false, not, ◌&&◌, ◌==◌, if◌then◌else◌, Option, none, some, List, [],
  ◌∷◌, ◌+◌, ◌-◌, ◌%◌, ◌^◌, ◌<◌, ◌≡◌, refl, arith, codes,
}
use fix4_2_protocol.Core.Enum.{RejectReasonSession}
use fix4_2_protocol.Core.Float.{Float}
use fix4_2_protocol.Message.MsgType
use fix4_2_protocol.Message.Types.{Header, SessionReject}
use fix4_2_protocol.Session.Client.{
  InternalClient, next_seq_number, expected_seq_number, login, set_seq_number,
}
use fix4_2_protocol.Session.HeaderValidation.{verify_user_specific, header_reject}
use fix4_2_protocol.Units.{UserSession, LogonRequest, Parsed, parsed}
use fix4_2_protocol.Units.Logon.{log_in}
use fix4_2_protocol.Units.Output.{numbered, count_received, count_before, output_header}
use fix4_2_protocol.Back.{User, next_number, expected_number, user_login, set_number}
use fix4_2_protocol.Back.HeaderValidation.{back_verify_user, back_reject}
use fix4_2_protocol.Back.Network.{back_output, back_count_received, back_count_before, back_header}
use fix4_2_protocol.Back.Auth.{handle_logon}
pub mod Agreement
pub mod Crossing

-- The two sides, and the headers of the messages that are under way.
pub record Line : Type 0 where
  pub server : InternalClient
  pub user : User
  pub up : List Header
  pub down : List Header

-- A message as it is sent: its time, type and size.
pub record Content : Type 0 where
  pub time : ℕ
  pub msg_type : ℕ
  pub size : ℕ

unfoldable pub is_none : {A : Type 0} → Option A → Bool
is_none none = true
is_none (some a) = false

module _ (provider : Str) where
  -- The client sends.
  unfoldable pub client_speaks : Content → Line → Line
  unfolding back_output
  client_speaks x l =
      let (u, h) = back_output provider x.time x.msg_type x.size l.user in
      record l { user = u; up = h ∷ [] }

  -- The server sends.
  pub server_speaks : Content → Line → Line
  unfolding numbered
  server_speaks x l =
      let (c, h) = numbered provider x.time x.msg_type x.size l.server in
      record l { server = c; down = h ∷ [] }

  -- The messages under way pass the check of the side that they come to.
  pub up_accepted : InternalClient → List Header → Bool
  unfolding count_received verify_user_specific is_none
  up_accepted c [] = true
  up_accepted c (h ∷ hs) =
      is_none (verify_user_specific provider h (count_received c)) && up_accepted c hs

  pub down_accepted : User → List Header → Bool
  unfolding back_count_received back_verify_user is_none
  down_accepted u [] = true
  down_accepted u (h ∷ hs) =
      is_none (back_verify_user provider h (back_count_received u)) && down_accepted u hs

  pub accepted : Line → Bool
  unfolding up_accepted down_accepted
  accepted l = up_accepted l.server l.up && down_accepted l.user l.down

  -- A turn: a side sends while no message is under way, or receives the one that is. Numbers stay below 2^32 - 1.
  pub data Turn : Line → Line → Type 0 where
    client_sends :
        (l : Line) (x : Content)
        → l.up ≡ []
        → l.down ≡ []
        → l.user.seq_num < 4294967295
        → Turn l (client_speaks x l)
    server_sends :
        (l : Line) (x : Content)
        → l.up ≡ []
        → l.down ≡ []
        → l.user.seq_num < 4294967295
        → Turn l (server_speaks x l)
    server_receives :
        (l : Line) (h : Header)
        → l.up ≡ h ∷ []
        → Turn l (record l { server = count_received l.server; up = [] })
    client_receives :
        (l : Line) (h : Header)
        → l.down ≡ h ∷ []
        → Turn l (record l { user = back_count_received l.user; down = [] })

  pub data Turns (start : Line) : Line → Type 0 where
    none_taken : Turns start start
    taken : {l m : Line} → Turns start l → Turn l m → Turns start m

-- Both sides are logged in as one user.
pub record IsShared (l : Line) : Type 0 where
  pub server_in : l.server.logged_in ≡ true
  pub client_in : l.user.logged_in ≡ true
  pub one_user : l.server.user_id ≡ l.user.user_id

-- The log on of a user whose counter is `a`: the client's message, what the server makes of it, its reply, and what the client
-- makes of that. The interval of the reply is what the server's parser and the client's read.
module _ {F : Type 0} ⦃fl : Float F⦄ (num : ℕ → F) (whole : F → ℕ) (max_to : F)
    (provider : Str) where
  unfoldable pub log_on :
      Content → Content → LogonRequest → LogonRequest → UserSession → User → Line
  unfolding back_output log_in numbered handle_logon
  log_on x y request answer s u =
      let (u', h) = back_output provider x.time x.msg_type x.size u in
      let (s', _) =
        log_in num whole max_to y.time h request (record s { client = count_received s.client }) in
      let (c', h') = numbered provider y.time y.msg_type y.size s'.client in
      let (u'', _) = handle_logon y.time h' (parsed answer) (back_count_received u') in
      record { server = c'; user = u''; up = []; down = [] }
