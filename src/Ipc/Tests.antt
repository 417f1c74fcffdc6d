-- ===== src/Ipc/Tests.antt =====
-- Runs of the messages of client/shared/IPC on concrete values; a float is 0 or 1 here.
use fix4_2_protocol.Base.{
  ℕ, codes, Bool, true, false, List, [], ◌∷◌, ◌≡◌, refl, Option, none, some, ◌==◌, if◌then◌else◌,
  arith, subst, ◌≤◌, length,
}
use fix4_2_protocol.Network.Buffer.{
  Buffer, FloatBytes, IsFaithful, word_bytes, append, reset, get_byte, get_word, get, check_size,
  first, skip, number,
}
use fix4_2_protocol.Network.Reading.{IsAt, text_bytes, ◌>>=◌}
use fix4_2_protocol.Ipc.Types.{MessageType, OrderSingle, AuthBackToInitiator}
use fix4_2_protocol.Ipc.Wire.{get_header, byte_of}
use fix4_2_protocol.Ipc.Helper.{frame, get_payload}
use fix4_2_protocol.Ipc.Framing.{pieces, size}
use fix4_2_protocol.Ipc.Exchange.{frame-read_back}
use fix4_2_protocol.Ipc.Transport.{
  on_receive, receive_round, receive_round-frame, receive_round-IsComplete, IsRecv, IsComplete,
  AreBytes, receive_body,
}

abbrev pub coin_to : Bool → List ℕ
coin_to false = 0 ∷ 0 ∷ 0 ∷ 0 ∷ []
coin_to true = 0 ∷ 0 ∷ 128 ∷ 63 ∷ []

abbrev pub coin_of : List ℕ → Bool
coin_of (a ∷ b ∷ c ∷ bs) = c == 128
coin_of bs = false

instance abbrev pub coin : FloatBytes Bool
coin = record { to_bytes = coin_to; of_bytes = coin_of }

coin_four : (f : Bool) → length (coin_to f) ≡ 4
coin_four true = refl
coin_four false = refl

coin_back : (f : Bool) → coin_of (coin_to f) ≡ f
coin_back true = refl
coin_back false = refl

pub coin_ok : IsFaithful coin
coin_ok = record { four = coin_four; back = coin_back }

abbrev pub order : OrderSingle Bool
order = record {
  symbol = codes "GLD";
  order_id = codes "7";
  price = true;
  quantity = false;
  side = 49;
}

abbrev pub blank : OrderSingle Bool
blank = record { symbol = []; order_id = []; price = false; quantity = false; side = 0 }

frame-read_back_example :
    (behind after : Buffer) × (get_header 9 9 (frame Bool MessageType.order_single order) ≡ (
      behind,
      record {
        msg_type = MessageType.order_single;
        body_size = size {F = Bool} (pieces MessageType.order_single order);
      },
    ))
    × (get_payload Bool 9 MessageType.order_single blank behind ≡ (after, order))
    × IsAt after []
frame-read_back_example =
    frame-read_back coin_ok MessageType.order_single order blank 9 9 (omega arith) tt

abbrev pub auth : AuthBackToInitiator
auth = record { apikey = codes "k"; port = 258 }

abbrev auth_body : List ℕ
auth_body = 0 ∷ 0 ∷ 0 ∷ 1 ∷ 107 ∷ 0 ∷ 0 ∷ 1 ∷ 2 ∷ []

-- A peer that has an answer to one size alone.
abbrev answers : ℕ → List ℕ → ℕ → Option (List ℕ)
answers k xs n = if n == k then some xs else none

answered :
    (k : ℕ) (xs : List ℕ) (n : ℕ) (bs : List ℕ) → answers k xs n ≡ some bs → (n ≡ k) × (xs ≡ bs)
answered k xs n bs h = (ground arith, ground arith)

answers-IsRecv : (k : ℕ) (xs : List ℕ) → length xs ≤ k → AreBytes xs → IsRecv (answers k xs)
answers-IsRecv k xs few range = record {
  bounded = λ n bs h. let (e, f) = answered k xs n bs h in rw (e, ← f) few;
  in_range = λ n bs h. subst AreBytes (answered k xs n bs h).1 range;
}

abbrev pub sends_header : ℕ → Option (List ℕ)
sends_header = answers 5 (3 ∷ 0 ∷ 0 ∷ 0 ∷ 9 ∷ [])

abbrev pub sends_body : ℕ → Option (List ℕ)
sends_body = answers 9 auth_body

receive_round-frame_example :
    receive_round sends_header sends_body 1 2
    ≡ on_receive (frame Bool MessageType.back_to_initiator_auth auth)
unfolding byte_of word_bytes text_bytes
receive_round-frame_example =
    receive_round-frame Bool coin_ok MessageType.back_to_initiator_auth auth sends_header sends_body
      1 2 (omega arith) refl refl

abbrev handed : Buffer
handed = record { valid = true; read = 0; bytes = 3 ∷ 0 ∷ 0 ∷ 0 ∷ 9 ∷ auth_body }

receive_round-IsComplete_example : IsComplete sends_header sends_body handed
unfolding receive_round receive_body append reset get_header get_byte get_word get check_size first
    skip number ◌>>=◌
receive_round-IsComplete_example =
    receive_round-IsComplete sends_header sends_body 1 2 handed
      (answers-IsRecv 5 _ (omega arith) (omega arith))
      (answers-IsRecv 9 auth_body (omega arith) (omega arith)) refl
