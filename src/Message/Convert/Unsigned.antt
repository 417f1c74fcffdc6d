-- ===== src/Message/Convert/Unsigned.antt =====
-- shared/Message-v2/src/FixConvertor.cpp: `from_FIX` and `to_FIX` for uint8_t, uint16_t, uint32_t, for
-- `RejectReasonSession` and for `char`. `std::from_chars` and `std::to_chars` are written out in base
-- ten; the buffer of `to_chars` is as long as the FIX-Message library's `NumericLimit` promises, and
-- that of a `RejectReasonSession` has two characters, which its values fit.
pub mod RoundTrip
pub mod Language
use fix4_2_protocol.Base.{
  Str, codes, ℕ, zero, suc, ◌+◌, ◌-◌, ◌*◌, ◌/◌, ◌%◌, ◌^◌, ◌≤◌, ◌<◌, ◌≡◌, refl, List, [], ◌∷◌, ◌++◌,
  Bool, true, false, ◌&&◌, arith, ltb, leb, ◌==◌, if◌then◌else◌, length, append_assoc,
}
use fix4_2_protocol.Core.Enum.{RejectReasonSession, reject_reason_session_value}
use fix4_2_protocol.Message.Convert.{
  Result, ok, err, Option, some, none, reject_error, value_oorange, incorrect_format, first_char,
  switch,
}

unfoldable pub is_digit : ℕ → Bool
is_digit c = leb b'0' c && leb c b'9'

-- The digits at the front of a text: the number that they spell behind `n`, and what follows them.
unfoldable pub scan : ℕ → Str → ℕ × Str
unfolding is_digit
scan n [] = (n, [])
scan n (c ∷ s) = if is_digit c then scan (n * 10 + (c - b'0')) s else (n, c ∷ s)

pub data FromChars : Type 0 where
  parsed : ℕ → Str → FromChars
  invalid_argument result_out_of_range : FromChars

-- `std::from_chars` into an unsigned type whose largest value is `top`.
unfoldable pub from_chars : ℕ → Str → FromChars
unfolding scan
from_chars top [] = invalid_argument
from_chars top (c ∷ s) =
    let (n, rest) = scan 0 (c ∷ s) in
    if is_digit c
    then (if leb n top then parsed n rest else result_out_of_range)
    else invalid_argument

-- One round for each digit, from the last.
unfoldable pub digits : ℕ → ℕ → Str → Str
digits zero n out = out
digits (suc fuel) n out =
    let more = digits fuel (n / 10) ((b'0' + n % 10) ∷ out) in
    if ltb n 10 then (b'0' + n % 10) ∷ out else more

-- `std::to_chars`: `n + 1` rounds are more than the digits of `n`.
unfoldable pub to_chars : ℕ → Str
unfolding digits
to_chars n = digits (suc n) n []

pub unsigned_result : Str → FromChars → Result ℕ
unsigned_result type (parsed n []) = ok n
unsigned_result type (parsed n (c ∷ s)) =
    err (reject_error incorrect_format (codes "Unknow error will parsing " ++ type))
unsigned_result type invalid_argument =
    err (reject_error incorrect_format (codes "Expected an " ++ type))
unsigned_result type result_out_of_range =
    err (reject_error value_oorange (codes "Value out of range of " ++ type))

unfoldable pub u8_from_fix : Str → Result ℕ
unfolding unsigned_result from_chars
u8_from_fix s = unsigned_result (codes "uint8_t") (from_chars (2 ^ 8 - 1) s)

unfoldable pub u16_from_fix : Str → Result ℕ
unfolding unsigned_result from_chars
u16_from_fix s = unsigned_result (codes "uint16_t") (from_chars (2 ^ 16 - 1) s)

unfoldable pub u32_from_fix : Str → Result ℕ
unfolding unsigned_result from_chars
u32_from_fix s = unsigned_result (codes "uint32_t") (from_chars (2 ^ 32 - 1) s)

pub data Width : Type 0 where
  u8 u16 u32 : Width

abbrev pub bits : Width → ℕ
bits u8 = 8
bits u16 = 16
bits u32 = 32

-- The overload of `from_FIX` for an unsigned type.
abbrev pub unsigned_from_fix : Width → Str → Result ℕ
unsigned_from_fix u8 = u8_from_fix
unsigned_from_fix u16 = u16_from_fix
unsigned_from_fix u32 = u32_from_fix

-- The three `to_FIX` of the unsigned types.
unfoldable pub unsigned_to_fix : Str → ℕ → Str
unfolding to_chars
unsigned_to_fix out n = out ++ to_chars n

abbrev pub session_labels : List RejectReasonSession
session_labels =
    RejectReasonSession.invalid_tag_num ∷ RejectReasonSession.required_tag_missing
    ∷ RejectReasonSession.tag_not_define ∷ RejectReasonSession.undefine_tag
    ∷ RejectReasonSession.tag_without_value ∷ RejectReasonSession.value_out_of_range
    ∷ RejectReasonSession.incorrect_data_format ∷ RejectReasonSession.signature_problem
    ∷ RejectReasonSession.comp_id_problem ∷ RejectReasonSession.sending_time_accuracy
    ∷ RejectReasonSession.invalid_msg_type ∷ []

session_select : Option RejectReasonSession → Result RejectReasonSession
session_select (some r) = ok r
session_select none = err (reject_error value_oorange (codes "Expected: 1 GE value GE 10"))

session_result : FromChars → Result RejectReasonSession
unfolding session_select
session_result (parsed n []) = session_select (switch reject_reason_session_value n session_labels)
session_result (parsed n (c ∷ s)) =
    err (reject_error incorrect_format (codes "Unknow error will parsing uint8_t"))
session_result invalid_argument = err (reject_error incorrect_format (codes "Expected an uint8_t"))
session_result result_out_of_range =
    err (reject_error value_oorange (codes "Value out of range of uint8_t"))

unfoldable pub session_from_fix : Str → Result RejectReasonSession
unfolding session_result from_chars
session_from_fix s = session_result (from_chars (2 ^ 8 - 1) s)

unfoldable pub session_to_fix : Str → RejectReasonSession → Str
unfolding to_chars
session_to_fix out v = out ++ to_chars (reject_reason_session_value v)

unfoldable pub char_from_fix : Str → Result ℕ
char_from_fix s =
    if ltb 1 (length s)
    then err (reject_error value_oorange (codes "Expected a char"))
    else ok (first_char s)

unfoldable pub char_to_fix : Str → ℕ → Str
char_to_fix out c = out ++ c ∷ []
