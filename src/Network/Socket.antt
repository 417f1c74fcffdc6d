-- ===== src/Network/Socket.antt =====
-- shared/Network: Stream::receive of Socket.inl, over what the system call `recv` answers.
use fix4_2_protocol.Base.{
  ℕ, Bool, false, List, [], ◌-◌, ◌==◌, ltb, if◌then◌else◌, Option, none, some, length,
}

-- `negsuc n` is -(n + 1).
pub data ℤ : Type 0 where
  pos : ℕ → ℤ
  negsuc : ℕ → ℤ

abbrev pub eq_int : ℤ → ℤ → Bool
eq_int (pos a) (pos b) = a == b
eq_int (pos a) (negsuc b) = false
eq_int (negsuc a) (pos b) = false
eq_int (negsuc a) (negsuc b) = a == b

-- `static_cast<int>` of a number of 32 bits.
abbrev pub int_of : ℕ → ℤ
int_of n = if ltb n 2147483648 then pos n else negsuc (4294967295 - n)

-- The system call fails, or gives bytes; their number is left in the variable for errors, or -1.
unfoldable pub receive : Option (List ℕ) → List ℕ × ℤ
receive none = ([], negsuc 0)
receive (some bs) = (bs, int_of (length bs))
