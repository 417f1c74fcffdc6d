-- ===== src/Session/Client.antt =====
-- server/src/InternalClient.cpp: the session of a client. The socket is left to the network.
use fix4_2_protocol.Base.{ℕ, Str, Bool, true, false, ◌+◌, ◌-◌, ◌%◌, ◌^◌, []}

pub record InternalClient : Type 0 where
  pub logged_in : Bool
  pub user_id : Str
  pub should_dc : Bool
  pub seq_num : ℕ

-- `uint32_t`
abbrev pub word : ℕ
word = 2 ^ 32

unfoldable pub login : Str → InternalClient → InternalClient
login id c = record c { logged_in = true; user_id = id }

unfoldable pub disconnect : InternalClient → InternalClient
disconnect c = record { logged_in = false; user_id = []; should_dc = false; seq_num = 0 }

unfoldable pub should_disconnect : Bool → InternalClient → InternalClient
should_disconnect b c = record c { should_dc = b }

unfoldable pub set_seq_number : ℕ → InternalClient → InternalClient
set_seq_number n c = record c { seq_num = n }

unfoldable pub next_seq_number : InternalClient → InternalClient
next_seq_number c = record c { seq_num = (c.seq_num + 1) % word }

-- `getSeqNumber() - 1` of the header check, which wraps around at 0.
unfoldable pub expected_seq_number : InternalClient → ℕ
expected_seq_number c = (c.seq_num + (word - 1)) % word
