-- ===== src/Session/Input/Tests.antt =====
-- A message through `buildHeader`, with a header that takes seven tags, and the theorem at it.
use fix4_2_protocol.Base.{
  ℕ, Str, codes, str_eq, Bool, true, false, ◌||◌, ◌+◌, ◌-◌, ◌*◌, if◌then◌else◌, none, List, [], ◌∷◌,
  ◌++◌, refl,
}
use fix4_2_protocol.Core.Enum.{RejectReasonSession}
use fix4_2_protocol.Session.Input.{HeaderLibrary, inserted, build_header}
use fix4_2_protocol.Session.Input.Soundness.{IsBuilt, build_header-IsBuilt}

abbrev is_header_tag : Str → Bool
is_header_tag k =
    str_eq k (codes "8")
    || str_eq k (codes "35")
    || str_eq k (codes "49")
    || str_eq k (codes "56")
    || str_eq k (codes "34")
    || str_eq k (codes "52")

abbrev number_of : ℕ → Str → ℕ
number_of n [] = n
number_of n (c ∷ s) = number_of (n * 10 + (c - 48)) s

abbrev pairs : HeaderLibrary (List (Str × Str))
pairs = record {
  empty = [];
  try_insert =
      λ h k v. if is_header_tag k then inserted (h ++ (k, v) ∷ []) true else inserted h false;
  verify = λ h. none;
  seq_num = λ h. 0;
  msg_type = λ h. 0;
  reason_of = λ r. RejectReasonSession.value_out_of_range;
  stoi = number_of 0;
}

abbrev message_text : Str
message_text =
    56 ∷ 61 ∷ 70 ∷ 73 ∷ 88 ∷ 46 ∷ 52 ∷ 46 ∷ 50 ∷ 1 ∷ 51 ∷ 53 ∷ 61 ∷ 68 ∷ 1 ∷ 52 ∷ 57 ∷ 61 ∷ 97 ∷ 1
    ∷ 53 ∷ 54 ∷ 61 ∷ 98 ∷ 1 ∷ 51 ∷ 52 ∷ 61 ∷ 49 ∷ 1 ∷ 53 ∷ 50 ∷ 61 ∷ 116 ∷ 1 ∷ 53 ∷ 53 ∷ 61 ∷ 71 ∷ 1
    ∷ 49 ∷ 48 ∷ 61 ∷ 50 ∷ 53 ∷ 52 ∷ 1 ∷ []

abbrev header_pairs : List (Str × Str)
header_pairs =
    (codes "8", codes "FIX.4.2")
    ∷ (codes "35", codes "D")
    ∷ (codes "49", codes "a")
    ∷ (codes "56", codes "b")
    ∷ (codes "34", codes "1")
    ∷ (codes "52", codes "t")
    ∷ []

build_header-IsBuilt_example :
    IsBuilt pairs message_text header_pairs ((codes "55", codes "G") ∷ [])
unfolding build_header str_eq
build_header-IsBuilt_example =
    build_header-IsBuilt pairs 3 message_text header_pairs ((codes "55", codes "G") ∷ []) refl
