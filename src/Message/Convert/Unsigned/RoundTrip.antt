-- ===== src/Message/Convert/Unsigned/RoundTrip.antt =====
-- The numbers that `to_FIX` prints are read back by `from_FIX`.
use fix4_2_protocol.Base.{
  Str, ℕ, zero, suc, ◌+◌, ◌-◌, ◌/◌, ◌%◌, ◌^◌, ◌≤◌, ◌<◌, ◌≡◌, refl, [], ◌∷◌, Bool, true, false,
  arith, length,
}
use fix4_2_protocol.Core.Enum.{RejectReasonSession, reject_reason_session_value}
use fix4_2_protocol.Message.Convert.{ok, switch}
use fix4_2_protocol.Message.Convert.Unsigned.{
  scan, digits, from_chars, to_chars, parsed, is_digit, u8_from_fix, u16_from_fix, u32_from_fix,
  unsigned_to_fix, Width, u8, u16, u32, bits, unsigned_from_fix, session_from_fix, session_to_fix,
  char_from_fix, char_to_fix, unsigned_result,
}

-- Reading what `digits` printed in front of a text that begins with the digits of `out`.
scan-digits : (fuel n : ℕ) (out : Str) → n < fuel → scan 0 (digits fuel n out) ≡ scan n out
unfolding scan digits
scan-digits zero n out h = absurd (omega arith)
scan-digits (suc fuel) n out h = ground (arith, scan-digits fuel (n / 10) ((b'0' + n % 10) ∷ out))

begins_digit : Str → Bool
begins_digit [] = false
begins_digit (c ∷ s) = is_digit c

digits_begin :
    (fuel n : ℕ) (out : Str) → begins_digit out ≡ true → begins_digit (digits fuel n out) ≡ true
unfolding digits begins_digit is_digit
digits_begin zero n out h = h
digits_begin (suc fuel) n out h = ground (arith, digits_begin fuel (n / 10) ((b'0' + n % 10) ∷ out))

to_chars_begin : (n : ℕ) → begins_digit (to_chars n) ≡ true
unfolding to_chars begins_digit is_digit
to_chars_begin n = ground (arith, digits_begin n (n / 10) ((b'0' + n % 10) ∷ []))

scan-to_chars : (n : ℕ) → scan 0 (to_chars n) ≡ (n, [])
unfolding to_chars scan
scan-to_chars n = scan-digits (suc n) n [] (omega arith)

from_chars-scan :
    (top n : ℕ) (s : Str)
    → begins_digit s ≡ true
    → scan 0 s ≡ (n, [])
    → n ≤ top
    → from_chars top s ≡ parsed n []
unfolding from_chars begins_digit
from_chars-scan top n [] b e h = cc
from_chars-scan top n (c ∷ s) b e h = rw (e, b) (ground arith)

-- What `std::to_chars` prints, `std::from_chars` reads back whole, if it fits the type.
pub from_chars-to_chars : (top n : ℕ) → n ≤ top → from_chars top (to_chars n) ≡ parsed n []
from_chars-to_chars top n h =
    from_chars-scan top n (to_chars n) (to_chars_begin n) (scan-to_chars n) h

abbrev top : Width → ℕ
top w = 2 ^ bits w - 1

-- The three overloads differ in the largest value and in the texts of the errors.
unsigned_from_fix_lem :
    (w : Width) (s : Str)
    → (type : Str) × (unsigned_from_fix w s ≡ unsigned_result type (from_chars (top w) s))
unfolding u8_from_fix u16_from_fix u32_from_fix
unsigned_from_fix_lem u8 s = (_, refl)
unsigned_from_fix_lem u16 s = (_, refl)
unsigned_from_fix_lem u32 s = (_, refl)

le-top : (w : Width) (n : ℕ) → n < 2 ^ bits w → n ≤ top w
le-top u8 n h = omega arith
le-top u16 n h = omega arith
le-top u32 n h = omega arith

-- Every value of the three unsigned types is read back from what `to_FIX` writes for it.
pub unsigned_from_fix-to_fix :
    (w : Width) (n : ℕ) → n < 2 ^ bits w → unsigned_from_fix w (unsigned_to_fix [] n) ≡ ok n
unfolding unsigned_to_fix unsigned_result
unsigned_from_fix-to_fix w n h =
    let (type, e) = unsigned_from_fix_lem w (to_chars n) in
    rw (e, from_chars-to_chars (top w) n (le-top w n h)) refl

-- A `RejectReasonSession` is read back from what `to_FIX` writes for it, and that fits its buffer of
-- two characters.
pub session_from_fix-to_fix :
    (v : RejectReasonSession)
    → (session_from_fix (session_to_fix [] v) ≡ ok v) × (length (session_to_fix [] v) ≤ 2)
unfolding session_from_fix session_to_fix switch reject_reason_session_value
session_from_fix-to_fix RejectReasonSession.invalid_tag_num = (refl, omega arith)
session_from_fix-to_fix _ = (refl, omega arith)

-- A `char` is read back from what `to_FIX` writes for it.
pub char_from_fix-to_fix : (c : ℕ) → char_from_fix (char_to_fix [] c) ≡ ok c
unfolding char_from_fix char_to_fix
char_from_fix-to_fix c = refl
