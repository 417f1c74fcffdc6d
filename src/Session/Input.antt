-- ===== src/Session/Input.antt =====
-- server/src/ProcessUnit/Network/TCPInput.cpp: `buildHeader`, which makes a header and a list of fields of a message; the client's
-- TcpInput.cpp has the same code. The header is of the library FIX-Message.
use fix4_2_protocol.Base.{
  ℕ, Str, codes, Bool, true, false, ◌||◌, ◌==◌, ◌+◌, ◌-◌, ◌%◌, if◌then◌else◌, Option, none, some,
  List, [], ◌∷◌, ◌++◌,
}
use fix4_2_protocol.Core.Enum.{RejectReasonSession}
use fix4_2_protocol.Message.Convert.{RejectError, Reason, req_tag_missing}
use fix4_2_protocol.Message.Types.{SessionReject}
use fix4_2_protocol.Session.Checksum.{split, running, verify_check_sum}
pub mod Soundness
mod Tests

-- What `try_insert` gives: an error, or the header, and whether the field belongs to it.
pub data Insertion (H : Type 0) : Type 0 where
  failed : RejectError → Insertion H
  inserted : H → Bool → Insertion H

-- The header of the library, the cast of its reasons, and `std::stoi` of a tag.
pub record HeaderLibrary (H : Type 0) : Type 0 where
  pub empty : H
  pub try_insert : H → Str → Str → Insertion H
  pub verify : H → Option RejectError
  pub seq_num : H → ℕ
  pub msg_type : H → ℕ
  pub reason_of : Reason → RejectReasonSession
  pub stoi : Str → ℕ

unfoldable pub contains : ℕ → List ℕ → Bool
contains n [] = false
contains n (m ∷ ms) = (n == m) || contains n ms

-- `HeaderVerifyPresence`
unfoldable pub verify_presence : List ℕ → List ℕ → Option RejectError
unfolding contains
verify_presence [] tags = none
verify_presence (t ∷ ts) tags =
    let rest = verify_presence ts tags in
    if contains t tags
    then rest
    else some (record {
      reason = req_tag_missing;
      message = codes "Non positional required tag missing";
      tag = some t;
    })

-- SenderCompId, TargetCompId, MsgSeqNum and SendingTime.
abbrev pub required_tags : List ℕ
required_tags = 49 ∷ 56 ∷ 34 ∷ 52 ∷ []

-- A field that is a tag and a value.
unfoldable pub pair_of : List Str → Option (Str × Str)
pair_of (k ∷ v ∷ []) = some (k, v)
pair_of _ = none

unfoldable pub field : Str → Option (Str × Str)
unfolding pair_of split
field p = pair_of (split b'=' p)

-- `back` and `pop_back`.
unfoldable pub split_last : List (Str × Str) → Option (List (Str × Str) × (Str × Str))
split_last [] = none
split_last (p ∷ []) = some ([], p)
split_last (p ∷ q ∷ ps) = elim (split_last (q ∷ ps)) [
  | none ↦ none
  | some (front, l) ↦ some (p ∷ front, l)
]

pub data Scan (H : Type 0) : Type 0 where
  rejected : SessionReject → Scan H
  scanned : H → List ℕ → List (Str × Str) → Scan H

-- What `buildHeader` ends with.
pub data BuiltMessage (H : Type 0) : Type 0 where
  refused_message : SessionReject → BuiltMessage H
  handed_on : H → List (Str × Str) → BuiltMessage H

-- `seq` is the client's sequence number.
module _ {H : Type 0} (lib : HeaderLibrary H) (seq : ℕ) where
  unfoldable pub ref_seq_num : List ℕ → H → ℕ
  unfolding contains
  ref_seq_num tags h = if contains 34 tags then lib.seq_num h else seq

  unfoldable pub ref_msg_type : List ℕ → H → Option ℕ
  unfolding contains
  ref_msg_type tags h = if contains 34 tags then some (lib.msg_type h) else none

  -- `BuildRejectFromError`
  unfoldable pub build_reject : RejectError → List ℕ → H → SessionReject
  unfolding ref_seq_num ref_msg_type
  build_reject e tags h = record {
    ref_seq_num = ref_seq_num tags h;
    ref_tag_id = e.tag;
    ref_msg_type = ref_msg_type tags h;
    session_reject_reason = some (lib.reason_of e.reason);
    text = some e.message;
  }

  -- A field with no tag and value.
  unfoldable pub field_reject : List ℕ → H → SessionReject
  unfolding ref_seq_num ref_msg_type
  field_reject tags h = record {
    ref_seq_num = ref_seq_num tags h;
    ref_tag_id = none;
    ref_msg_type = ref_msg_type tags h;
    session_reject_reason = some RejectReasonSession.undefine_tag;
    text = some (codes "Unable to parse header key-value");
  }

  unfoldable pub verify_header : H → List ℕ → Option RejectError
  unfolding verify_presence
  verify_header h tags = elim (lib.verify h) [
    | some e ↦ some e
    | none ↦ verify_presence required_tags tags
  ]

  -- The loop behind the header.
  unfoldable pub scan_rest : H → List ℕ → List (Str × Str) → List Str → Scan H
  unfolding field field_reject
  scan_rest h tags m [] = scanned h tags m
  scan_rest h tags m (p ∷ ps) = elim (field p) [
    | none ↦ rejected (field_reject tags h)
    | some kv ↦ scan_rest h tags (m ++ kv ∷ []) ps
  ]

  -- A field that does not belong to the header ends it.
  unfoldable pub close_header : H → List ℕ → Str × Str → List Str → Scan H
  unfolding verify_header scan_rest build_reject
  close_header h tags kv ps = elim (verify_header h tags) [
    | some e ↦ rejected (build_reject e tags h)
    | none ↦ scan_rest h tags (kv ∷ []) ps
  ]

  -- The loop while the header is not complete.
  unfoldable pub scan_header : H → List ℕ → List Str → Scan H
  unfolding field field_reject build_reject close_header
  scan_header h tags [] = scanned h tags []
  scan_header h tags (p ∷ ps) = elim (field p) [
    | none ↦ rejected (field_reject tags h)
    | some (k, v) ↦ elim (lib.try_insert h k v) [
      | failed e ↦ rejected (build_reject e tags h)
      | inserted h' mine ↦ elim mine [
        | true ↦ scan_header h' (tags ++ (lib.stoi k % 65536) ∷ []) ps
        | false ↦ close_header h' tags (k, v) ps
      ]
    ]
  ]

  -- `verifyCheckSum` on the fields, without the last where it passes.
  unfoldable pub check_last :
      ℕ → H → List ℕ → Option (List (Str × Str) × (Str × Str)) → BuiltMessage H
  unfolding verify_check_sum build_reject
  check_last sum h tags none = refused_message (
      build_reject
        (record {
          reason = req_tag_missing;
          message = codes "Last tag should be CheckSum";
          tag = some 10;
        })
        tags h)
  check_last sum h tags (some (front, l)) = elim (verify_check_sum sum l) [
    | some e ↦ refused_message (build_reject e tags h)
    | none ↦ handed_on h front
  ]

  unfoldable pub finish_scan : ℕ → Scan H → BuiltMessage H
  unfolding check_last split_last
  finish_scan sum (rejected r) = refused_message r
  finish_scan sum (scanned h tags m) = check_last sum h tags (split_last m)

  -- `buildHeader`
  unfoldable pub build_header : Str → BuiltMessage H
  unfolding scan_header finish_scan running split
  build_header text =
      let parts = split 1 text in
      let (sum, last) = running 0 0 parts in
      finish_scan ((sum + (4294967296 - last)) % 4294967296) (scan_header lib.empty [] parts)
