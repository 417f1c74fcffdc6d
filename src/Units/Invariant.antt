-- ===== src/Units/Invariant.antt =====
-- What holds of a session in every run of the units of server/src/ProcessUnit/User and the TCP units, the interval of its
-- heartbeats, and how a silent client leaves.
use fix4_2_protocol.Base.{
  ℕ, Str, Bool, true, false, not, Option, none, some, List, [], ◌∷◌, ◌++◌, All, ◌+◌, ◌*◌, ◌≤◌, ◌<◌,
  ◌≡◌, ◌≢◌, refl, ltb, if◌then◌else◌, arith,
}
use fix4_2_protocol.Core.Float.{Float, IsExact, whole_limit}
use fix4_2_protocol.Message.Types.{Header}
use fix4_2_protocol.Units.{UserSession, LogonRequest, Parsed, parsed, refused}
use fix4_2_protocol.Units.Logon.{elapsing, log_in, logon_on_input, logout_on_input}
use fix4_2_protocol.Units.HeartBeat.{
  lost, beat, check_test, check_info, process_heart_beat, Watch, quiet, test, dropped, leave,
  open_test, fill_test, watch_client,
}
use fix4_2_protocol.Units.Store.{new_session, on_new_client}
use fix4_2_protocol.Units.Output.{
  count_received, output_on_input, deliver, close_requested, numbered,
}
use fix4_2_protocol.Session.Client.{disconnect, should_disconnect}

abbrev is_none : Option Str → Bool
is_none none = true
is_none (some v) = false

-- A test request is open where there is a value for it.
abbrev pub HasValue : UserSession → Type 0
HasValue s = s.info.test_request ≡ not (is_none s.info.test_value)

begins :
    (second now : ℕ) (stamp : ℕ → Str) (s : UserSession)
    → (watch_client second stamp now s).1 ≡ test (stamp now)
    → (s.info.test_request ≡ false)
      × ((watch_client second stamp now s).0 ≡ fill_test (stamp now) (open_test now s))
unfolding watch_client
begins second now stamp s h = (ground arith, ground arith)

lost_between :
    (unset time now : ℕ) (given : Option Str) (s : UserSession)
    → HasValue s
    → s.info.test_request ≡ false
    → process_heart_beat unset time (parsed given) (open_test now s) ≡ (open_test now s, lost)
unfolding process_heart_beat check_info open_test
lost_between unset time now given s h closed =
    let missing : s.info.test_value ≡ none = ground arith in rw missing refl

answered :
    (unset time : ℕ) (value : Str) (given : Option Str) (s : UserSession)
    → s.info.test_request ≡ true
    → (process_heart_beat unset time (parsed given) (fill_test value s)).1 ≢ lost
unfolding process_heart_beat check_info check_test beat fill_test
answered unset time value none s h e = ground arith
answered unset time value (some v) s h e = ground arith

module _ {F : Type 0} ⦃fl : Float F⦄ (num : ℕ → F) (whole : F → ℕ) (max_to : F) where
  -- What the units do to a session; the arguments are those of the functions.
  pub data Act : UserSession → UserSession → Type 0 where
    joins : (now : ℕ) (s : UserSession) → Act s (on_new_client now s)
    logs_on :
        (now : ℕ) (h : Header) (p : Parsed LogonRequest) (s : UserSession)
        → Act s (logon_on_input num whole max_to now h p s).0
    logs_out : (p : Parsed (Unit {0})) (s : UserSession) → Act s (logout_on_input p s).0
    beats :
        (unset time : ℕ) (p : Parsed (Option Str)) (s : UserSession)
        → Act s (process_heart_beat unset time p s).0
    is_watched :
        (second now : ℕ) (stamp : ℕ → Str) (s : UserSession)
        → Act s (watch_client second stamp now s).0
    is_heard : (s : UserSession) → Act s (record s { client = count_received s.client })
    is_sent :
        (provider : Str) (now msg_type size address : ℕ) (opened is_taken : Bool) (s : UserSession)
        → Act s (output_on_input provider now msg_type size address opened is_taken s).0

  pub data Acts (start : UserSession) : UserSession → Type 0 where
    none_yet : Acts start start
    further : {s t : UserSession} → Acts start s → Act s t → Acts start t

  Act-HasValue : {s t : UserSession} → Act s t → HasValue s → HasValue t
  unfolding on_new_client logon_on_input log_in logout_on_input process_heart_beat check_info
      check_test beat watch_client open_test fill_test leave output_on_input deliver close_requested
      numbered
  Act-HasValue (joins now s) h = ground arith
  Act-HasValue (logs_on now k (parsed l) s) h = ground arith
  Act-HasValue (logs_on now k (refused r) s) h = h
  Act-HasValue (logs_out (parsed _) s) h = ground arith
  Act-HasValue (logs_out (refused r) s) h = h
  Act-HasValue (beats unset time (parsed none) s) h = ground arith
  Act-HasValue (beats unset time (parsed (some v)) s) h = ground arith
  Act-HasValue (beats unset time (refused r) s) h = h
  Act-HasValue (is_watched second now stamp s) h = ground arith
  Act-HasValue (is_heard s) h = h
  Act-HasValue (is_sent provider now msg_type size address opened is_taken s) h = ground arith

  Acts-HasValue : {s : UserSession} → Acts new_session s → HasValue s
  Acts-HasValue none_yet = refl
  Acts-HasValue (further r a) = Act-HasValue a (Acts-HasValue r)

  -- In every session that a new client comes to, by whatever acts of the units, each of them whole: where a round of the watch begins
  -- a test, a heartbeat that parses and comes between the two writes of that round ends in the fatal log line, with no
  -- answer and no change, so the client stays untested until the second write; one that comes after both writes is answered.
  pub process_heart_beat-open_test :
      (unset time second now : ℕ) (stamp : ℕ → Str) (given : Option Str) (s : UserSession)
      → Acts new_session s
      → (watch_client second stamp now s).1 ≡ test (stamp now)
      → (process_heart_beat unset time (parsed given) (open_test now s) ≡ (open_test now s, lost))
        × ((process_heart_beat unset time (parsed given) (watch_client second stamp now s).0).1
            ≢ lost)
  unfolding open_test
  process_heart_beat-open_test unset time second now stamp given s r h =
      let (closed, begun) = begins second now stamp s h in
      (
        lost_between unset time now given s (Acts-HasValue r) closed,
        rw begun (answered unset time (stamp now) given (open_test now s) refl),
      )

-- The interval of heartbeats, where MaxTO is the whole number m: at least one second, at most the larger of one second and MaxTO,
-- and at most the larger of one second and what the client asks for.
pub elapsing_bounds :
    {F : Type 0} (fl : Float F) (num : ℕ → F) (whole : F → ℕ) (m interval : ℕ)
    → IsExact fl num whole
    → m ≤ whole_limit
    → interval ≤ whole_limit
    → (1 ≤ elapsing ⦃fl = fl⦄ num whole (num m) interval)
      × (elapsing ⦃fl = fl⦄ num whole (num m) interval ≤ (if ltb 1 m then m else 1))
      × (elapsing ⦃fl = fl⦄ num whole (num m) interval ≤ (if ltb 1 interval then interval else 1))
unfolding elapsing
elapsing_bounds fl num whole m interval ok hm hi =
    let a = ok.lt_num interval m hi hm in
    let b = ok.lt_num 1 m (omega arith) hm in
    let c = ok.lt_num 1 interval (omega arith) hi in
    let d = ok.whole_num 1 (omega arith) in
    let e = ok.whole_num m hm in
    let f = ok.whole_num interval hi in (ground arith, ground arith, ground arith)

-- The rounds of `handle` for a client, and what each does.
unfoldable pub watch_rounds : ℕ → (ℕ → Str) → List ℕ → UserSession → UserSession × List Watch
unfolding watch_client
watch_rounds second stamp [] s = (s, [])
watch_rounds second stamp (now ∷ ts) s =
    let (s', w) = watch_client second stamp now s in
    let (s'', ws) = watch_rounds second stamp ts s' in (s'', w ∷ ws)

abbrev pub quiet_rounds : List ℕ → List Watch
quiet_rounds [] = []
quiet_rounds (t ∷ ts) = quiet ∷ quiet_rounds ts

left_alone :
    (second : ℕ) (stamp : ℕ → Str) (ts : List ℕ) (s : UserSession)
    → s.client.logged_in ≡ false
    → watch_rounds second stamp ts s ≡ (s, quiet_rounds ts)
unfolding watch_rounds
left_alone second stamp [] s h = refl
left_alone second stamp (t ∷ ts) s h = ground (arith, left_alone second stamp ts s)

-- The rounds within the interval of a client do nothing.
within :
    (second : ℕ) (stamp : ℕ → Str) (ts rest : List ℕ) (s : UserSession)
    → All (λ t. t ≤ s.info.since + s.info.elapsing * second) ts
    → watch_rounds second stamp (ts ++ rest) s ≡ (
      (watch_rounds second stamp rest s).0,
      quiet_rounds ts ++ (watch_rounds second stamp rest s).1,
    )
unfolding watch_rounds
within second stamp [] rest s h = refl
within second stamp (t ∷ ts) rest s (first, h) = ground (arith, within second stamp ts rest s h)

dropped_at :
    (second : ℕ) (stamp : ℕ → Str) (u : ℕ) (after : List ℕ) (s : UserSession)
    → s.client.logged_in ≡ true
    → s.client.should_dc ≡ false
    → s.info.test_request ≡ true
    → s.info.since + s.info.elapsing * second < u
    → watch_rounds second stamp (u ∷ after) s ≡ (leave s, dropped ∷ quiet_rounds after)
unfolding watch_rounds leave disconnect should_disconnect
dropped_at second stamp u after s a b c d =
    let end = left_alone second stamp after (leave s) refl in ground arith

tested_at :
    (second : ℕ) (stamp : ℕ → Str) (t : ℕ) (rest : List ℕ) (s : UserSession)
    → s.client.logged_in ≡ true
    → s.client.should_dc ≡ false
    → s.info.test_request ≡ false
    → s.info.since + s.info.elapsing * second < t
    → let tested = fill_test (stamp t) (open_test t s) in
      watch_rounds second stamp (t ∷ rest) s ≡ (
        (watch_rounds second stamp rest tested).0,
        test (stamp t) ∷ (watch_rounds second stamp rest tested).1,
      )
unfolding watch_rounds
tested_at second stamp t rest s a b c d = ground arith

-- A client that is logged in and silent: whatever rounds pass within its interval, it is left alone; the first round after that
-- sends it a test request; whatever rounds pass within a further interval from there, it is left alone; the first round after
-- that drops it; and from then on it is left alone.
pub watch_rounds_silent :
    (second : ℕ) (stamp : ℕ → Str) (t u : ℕ) (before between after : List ℕ) (s : UserSession)
    → s.client.logged_in ≡ true
    → s.client.should_dc ≡ false
    → s.info.test_request ≡ false
    → All (λ x. x ≤ s.info.since + s.info.elapsing * second) before
    → s.info.since + s.info.elapsing * second < t
    → All (λ x. x ≤ t + s.info.elapsing * second) between
    → t + s.info.elapsing * second < u
    → watch_rounds second stamp (before ++ t ∷ (between ++ u ∷ after)) s ≡ (
      leave (fill_test (stamp t) (open_test t s)),
      quiet_rounds before
          ++ test (stamp t) ∷ (quiet_rounds between ++ dropped ∷ quiet_rounds after),
    )
unfolding open_test fill_test
watch_rounds_silent second stamp t u before between after s a b c early d later e =
    let tested = fill_test (stamp t) (open_test t s) in
    rw
      (
        within second stamp before (t ∷ (between ++ u ∷ after)) s early,
        tested_at second stamp t (between ++ u ∷ after) s a b c d,
        within second stamp between (u ∷ after) tested later,
        dropped_at second stamp u after tested a b refl e,
      )
      refl
