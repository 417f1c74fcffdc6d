-- ===== src/Units/Output.antt =====
-- server/src/ProcessUnit/Network/TCPOutput.cpp: `onInput`, but for the checksum, which Session.Checksum has; and the count of
-- a message that TCPInput.cpp receives.
use fix4_2_protocol.Base.{
  ℕ, Str, codes, Bool, false, List, [], ◌∷◌, ◌++◌, ◌≤◌, ◌≡◌, length, if◌then◌else◌, arith,
}
use fix4_2_protocol.Message.Types.{Header}
use fix4_2_protocol.OrderBook.{undefined}
use fix4_2_protocol.Session.Client.{InternalClient, next_seq_number}
use fix4_2_protocol.Units.{UserSession}
use fix4_2_protocol.Units.HeartBeat.{leave}
use fix4_2_protocol.Units.Store.{Entry, AreDistinct, remove_all, remove_all_twice}

-- TCPInput's `process`: a message of a client that is logged in is counted.
unfoldable pub count_received : InternalClient → InternalClient
unfolding next_seq_number
count_received c = if c.logged_in then next_seq_number c else c

-- The message of a client that is not logged in is counted before, too.
unfoldable pub count_before : InternalClient → InternalClient
unfolding next_seq_number
count_before c = if c.logged_in then c else next_seq_number c

unfoldable pub output_header : Str → ℕ → ℕ → ℕ → InternalClient → Header
output_header provider now msg_type size c = record {
  begin_string = codes "FIX.4.2";
  body_length = size;
  msg_type = msg_type;
  sender_comp_id = provider;
  target_comp_id = c.user_id;
  msg_seq_num = c.seq_num;
  sending_time = now;
}

-- The client behind the header that is written for it.
unfoldable pub numbered : Str → ℕ → ℕ → ℕ → InternalClient → InternalClient × Header
unfolding count_before output_header next_seq_number
numbered provider now msg_type size c =
    let c' = count_before c in (next_seq_number c', output_header provider now msg_type size c')

-- A client that should disconnect is closed and removed.
unfoldable pub close_requested : ℕ → UserSession → List ℕ → UserSession × List ℕ
unfolding leave
close_requested address s removals =
    if s.client.should_dc then (leave s, removals ++ address ∷ []) else (s, removals)

-- The sending: whether the socket is open and takes the bytes comes from the system. The list holds the tasks of
-- `removeClient` that are given.
unfoldable pub deliver : ℕ → Bool → Bool → UserSession → UserSession × List ℕ
unfolding close_requested leave
deliver address opened taken s =
    if opened
    then (if taken
        then close_requested address s []
        else close_requested address (leave s) (address ∷ []))
    else (leave s, address ∷ [])

-- `onInput`
unfoldable pub output_on_input :
    Str → ℕ → ℕ → ℕ → ℕ → Bool → Bool → UserSession → UserSession × Header × List ℕ
unfolding numbered deliver
output_on_input provider now msg_type size address opened taken s =
    let (c, header) = numbered provider now msg_type size s.client in
    let (s', removals) = deliver address opened taken (record s { client = c }) in
    (s', header, removals)

-- A message that waits: its time, its type and its size.
pub record Waiting : Type 0 where
  pub time : ℕ
  pub msg_type : ℕ
  pub size : ℕ

-- The tasks that the messages of a client give whose socket is closed.
unfoldable pub closed_outputs : Str → ℕ → List Waiting → UserSession → List ℕ
unfolding output_on_input
closed_outputs provider address [] s = []
closed_outputs provider address (w ∷ ws) s =
    let (s', _, removals) =
      output_on_input provider w.time w.msg_type w.size address false false s in
    removals ++ closed_outputs provider address ws s'

-- Two messages or more that wait for a client whose socket is closed remove it twice, and the second removal erases the
-- end of the list of clients, which is undefined.
pub closed_outputs_undefined :
    (provider : Str) (address : ℕ) (ws : List Waiting) (s : UserSession) (cs : List Entry)
    → 2 ≤ length ws
    → AreDistinct cs
    → remove_all (closed_outputs provider address ws s) cs ≡ undefined
unfolding closed_outputs
closed_outputs_undefined provider address [] s cs h d = absurd (omega arith)
closed_outputs_undefined provider address (w ∷ []) s cs h d = absurd (omega arith)
closed_outputs_undefined provider address (w ∷ v ∷ ws) s cs h d = remove_all_twice address _ cs d
