-- ===== src/Network/Buffer.antt =====
-- shared/Network/include/Shared/Network/Buffer.hpp, Buffer.inl and shared/Network/src/Buffer.cpp: a buffer that
-- values are written to and read from. Whole numbers are written with `htons` and `htonl`, the
-- highest byte first; a float is written as it lies in memory, which is a parameter.
use fix4_2_protocol.Base.{
  ℕ, zero, suc, Str, Bool, true, not, ◌&&◌, ltb, leb, if◌then◌else◌, List, [], ◌∷◌, ◌++◌, ◌+◌, ◌*◌,
  ◌/◌, ◌%◌, ◌≡◌, length,
}

pub record Buffer : Type 0 where
  pub valid : Bool
  pub read : ℕ
  pub bytes : List ℕ

abbrev pub new_buffer : Buffer
new_buffer = record { valid = true; read = 0; bytes = [] }

-- The four bytes of a float in memory.
pub record FloatBytes (F : Type 0) : Type 0 where
  pub to_bytes : F → List ℕ
  pub of_bytes : List ℕ → F

pub record IsFaithful {F : Type 0} (fb : FloatBytes F) : Type 0 where
  pub four : (f : F) → length (fb.to_bytes f) ≡ 4
  pub back : (f : F) → fb.of_bytes (fb.to_bytes f) ≡ f

-- The numbers of `size_t`.
abbrev pub size_limit : ℕ
size_limit = 18446744073709551616

unfoldable pub skip : ℕ → List ℕ → List ℕ
skip zero bs = bs
skip (suc n) [] = []
skip (suc n) (b ∷ bs) = skip n bs

unfoldable pub first : ℕ → List ℕ → List ℕ
first zero bs = []
first (suc n) [] = []
first (suc n) (b ∷ bs) = b ∷ first n bs

-- `append`
unfoldable pub append : List ℕ → Buffer → Buffer
append bs b = record b { bytes = b.bytes ++ bs }

-- `checkSize`, with the overflow of `size_t`.
unfoldable pub check_size : ℕ → Buffer → Buffer
check_size n b =
    let sum = (b.read + n) % size_limit in
    record b { valid = b.valid && (leb sum (length b.bytes) && not (ltb sum b.read)) }

unfoldable pub reset : Buffer → Buffer
reset b = record b { read = 0 }

unfoldable pub clear : Buffer → Buffer
clear b = record b { read = 0; bytes = [] }

unfoldable pub word_bytes : ℕ → List ℕ
word_bytes n = n / 16777216 % 256 ∷ n / 65536 % 256 ∷ n / 256 % 256 ∷ n % 256 ∷ []

unfoldable pub half_bytes : ℕ → List ℕ
half_bytes n = n / 256 % 256 ∷ n % 256 ∷ []

-- A number, highest byte first.
unfoldable pub number : ℕ → List ℕ → ℕ
number n [] = n
number n (b ∷ bs) = number (n * 256 + b) bs

-- `operator<<`
unfoldable pub put_byte : ℕ → Buffer → Buffer
unfolding append
put_byte n b = append (n ∷ []) b

unfoldable pub put_half : ℕ → Buffer → Buffer
unfolding append half_bytes
put_half n b = append (half_bytes n) b

unfoldable pub put_word : ℕ → Buffer → Buffer
unfolding append word_bytes
put_word n b = append (word_bytes n) b

-- An empty text has no bytes to append.
unfoldable pub put_text : Str → Buffer → Buffer
unfolding append put_word
put_text s b =
    let n = length s % 4294967296 in
    let b' = put_word n b in if ltb 0 n then append (first n s) b' else b'

-- `operator>>` of a value that lies in n bytes, which `value` makes of them; the old value stays where
-- the buffer is too short.
unfoldable pub get : {A : Type 0} → ℕ → (List ℕ → A) → A → Buffer → Buffer × A
unfolding check_size
get n value old b =
    let b' = check_size n b in
    if b'.valid
    then (record b' { read = (b.read + n) % size_limit }, value (first n (skip b.read b.bytes)))
    else (b', old)

unfoldable pub get_byte : ℕ → Buffer → Buffer × ℕ
unfolding get number
get_byte old b = get 1 (number 0) old b

unfoldable pub get_half : ℕ → Buffer → Buffer × ℕ
unfolding get number
get_half old b = get 2 (number 0) old b

unfoldable pub get_word : ℕ → Buffer → Buffer × ℕ
unfolding get number
get_word old b = get 4 (number 0) old b

-- The text is cleared first, and stays empty where the length is 0 or too long.
unfoldable pub get_text : Buffer → Buffer × Str
unfolding get get_word
get_text b = let (b', n) = get_word 0 b in if ltb 0 n then get n (λ s. s) [] b' else (b', [])

module _ {F : Type 0} ⦃fb : FloatBytes F⦄ where
  unfoldable pub put_float : F → Buffer → Buffer
  unfolding append
  put_float f b = append (fb.to_bytes f) b

  unfoldable pub get_float : F → Buffer → Buffer × F
  unfolding get
  get_float old b = get 4 fb.of_bytes old b
