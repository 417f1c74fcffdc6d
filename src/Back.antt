-- ===== src/Back.antt =====
-- client/back: the back end of the client, which stands between the server and the front end.
pub mod HeaderValidation
pub mod Routing
pub mod Network
pub mod Auth
pub mod Execution
pub mod FixBuilder
pub mod Front
pub mod Dialogue
pub mod Delivery
mod Tests
use fix4_2_protocol.Base.{ℕ, Str, Bool, true, false, [], ◌+◌, ◌-◌, ◌%◌, ◌^◌}

-- client/back/src/User.cpp: the user, with its HeartBeatInfo.
pub record User : Type 0 where
  pub seq_num : ℕ
  pub logged_in : Bool
  pub user_id : Str
  pub dc_req : Bool
  pub logout_req : Bool
  pub since : ℕ
  pub elapsing : ℕ

-- `size_t`
abbrev pub size_word : ℕ
size_word = 2 ^ 64

unfoldable pub next_number : User → User
next_number u = record u { seq_num = (u.seq_num + 1) % size_word }

unfoldable pub set_number : ℕ → User → User
set_number n u = record u { seq_num = n }

unfoldable pub user_login : Str → User → User
user_login id u = record u { user_id = id; logged_in = true }

unfoldable pub set_user_id : Str → User → User
set_user_id id u = record u { user_id = id }

unfoldable pub user_should_disconnect : Bool → User → User
user_should_disconnect b u = record u { dc_req = b }

unfoldable pub request_logout : Bool → User → User
request_logout b u = record u { logout_req = b }

unfoldable pub user_disconnect : User → User
user_disconnect u = record u { user_id = []; logged_in = false; dc_req = false; logout_req = false }

-- `getSeqNumber() - 1`, which wraps around at 0.
unfoldable pub expected_number : User → ℕ
expected_number u = (u.seq_num + (size_word - 1)) % size_word
