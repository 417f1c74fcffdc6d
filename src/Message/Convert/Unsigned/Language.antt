-- ===== src/Message/Convert/Unsigned/Language.antt =====
-- The texts that `from_FIX` of an unsigned type accepts, and the numbers that it reads in them.
use mathlib.Core.List.{foldl, cons-ne-nil}
use fix4_2_protocol.Base.{Str, ℕ, ◌+◌, ◌-◌, ◌*◌, ◌^◌, ◌≤◌, ◌≡◌, ◌≢◌, ◌↔◌, refl, [], ◌∷◌, arith, All}
use fix4_2_protocol.Message.Convert.{ok}
use fix4_2_protocol.Message.Convert.Unsigned.{
  scan, from_chars, parsed, is_digit, bits, Width, u8, u16, u32, unsigned_from_fix, u8_from_fix,
  u16_from_fix, u32_from_fix, unsigned_result, FromChars, invalid_argument, result_out_of_range,
}

abbrev pub IsDigit : ℕ → Type 0
IsDigit c = (b'0' ≤ c) × (c ≤ b'9')

-- The number that digits spell behind `n`, with no bound.
abbrev pub value : ℕ → Str → ℕ
value = foldl (λ n c. n * 10 + (c - b'0'))

scan_sound : (s : Str) (n m : ℕ) → scan n s ≡ (m, []) → All IsDigit s × (value n s ≡ m)
unfolding scan
scan_sound [] n m h = ground arith
scan_sound (c ∷ s) n m h = ground (arith, scan_sound s (n * 10 + (c - b'0')) m)

scan_complete : (s : Str) (n : ℕ) → All IsDigit s → scan n s ≡ (value n s, [])
unfolding scan
scan_complete [] n h = refl
scan_complete (c ∷ s) n h = ground (arith, scan_complete s (n * 10 + (c - b'0')) h.1)

-- What a successful read of the whole text says.
abbrev Reads : ℕ → Str → ℕ → Type 0
Reads top s n = (s ≢ []) × All IsDigit s × (value 0 s ≡ n) × (n ≤ top)

from_chars_sound : (top : ℕ) (s : Str) (n : ℕ) → from_chars top s ≡ parsed n [] → Reads top s n
unfolding from_chars
from_chars_sound top [] n h = cc
from_chars_sound top (c ∷ s) n h =
    let spelled : All IsDigit (c ∷ s) × (value 0 (c ∷ s) ≡ n) =
      scan_sound (c ∷ s) 0 n (ground arith) in
    (cons-ne-nil c s, spelled.0, spelled.1, ground arith)

from_chars_complete : (top : ℕ) (s : Str) (n : ℕ) → Reads top s n → from_chars top s ≡ parsed n []
unfolding from_chars is_digit
from_chars_complete top [] n r = absurd (r.0 refl)
from_chars_complete top (c ∷ s) n r = rw (scan_complete (c ∷ s) 0 r.1) (ground arith)

unsigned_result_ok :
    (type : Str) (p : FromChars) (n : ℕ) → unsigned_result type p ≡ ok n → p ≡ parsed n []
unfolding unsigned_result
unsigned_result_ok type (parsed m []) n h = cc
unsigned_result_ok type (parsed m (c ∷ s)) n h = cc
unsigned_result_ok type invalid_argument n h = cc
unsigned_result_ok type result_out_of_range n h = cc

Reads-iff :
    (type : Str) (top : ℕ) (s : Str) (n : ℕ)
    → (unsigned_result type (from_chars top s) ≡ ok n) ↔ Reads top s n
unfolding unsigned_result
Reads-iff type top s n = (
  λ h. from_chars_sound top s n (unsigned_result_ok type _ n h),
  λ r. rw (from_chars_complete top s n r) refl,
)

-- `from_FIX` of an unsigned type reads n exactly from the non-empty texts of digits that spell n in
-- base ten, where n is below 2 ^ 8, 2 ^ 16 or 2 ^ 32: nothing wraps around, and nothing follows the digits.
pub unsigned_from_fix-eq-ok_iff :
    (w : Width) (s : Str) (n : ℕ)
    → (unsigned_from_fix w s ≡ ok n)
      ↔ ((s ≢ []) × All IsDigit s × (value 0 s ≡ n) × (n ≤ 2 ^ bits w - 1))
unfolding u8_from_fix u16_from_fix u32_from_fix
unsigned_from_fix-eq-ok_iff u8 s n = Reads-iff _ _ s n
unsigned_from_fix-eq-ok_iff u16 s n = Reads-iff _ _ s n
unsigned_from_fix-eq-ok_iff u32 s n = Reads-iff _ _ s n
