-- ===== src/Network/Reading.antt =====
-- Readers of shared/Network's Buffer: chains of `operator>>`, and what they make of the bytes that are
-- left to read.
use fix4_2_protocol.Base.{
  ℕ, zero, suc, Str, true, ltb, if◌then◌else◌, List, [], ◌∷◌, ◌++◌, append_assoc, ◌+◌, ◌<◌, ◌≤◌,
  ◌≡◌, refl, ap, length, length-append, arith,
}
use fix4_2_protocol.Network.Buffer.{
  Buffer, FloatBytes, IsFaithful, size_limit, skip, first, check_size, word_bytes, half_bytes,
  number, get, get_byte, get_half, get_word, get_text, get_float,
}

abbrev pub Reader : Type 0 → Type 0
Reader A = Buffer → Buffer × A

infixl 5 ◌>>=◌
unfoldable pub ◌>>=◌ : {A B : Type 0} → Reader A → (A → Reader B) → Reader B
◌>>=◌ m f b = let (b', a) = m b in f a b'

abbrev pub give : {A : Type 0} → A → Reader A
give a b = (b, a)

-- The buffer is valid, and what is left to read of it is `rest`.
pub record IsAt (b : Buffer) (rest : List ℕ) : Type 0 where
  pub is_valid : b.valid ≡ true
  pub left : skip b.read b.bytes ≡ rest
  pub within : b.read + length rest ≡ length b.bytes
  pub small : length b.bytes < size_limit

-- The reader makes the value of the bytes, whatever follows them, and leaves the rest.
abbrev pub Reads : {A : Type 0} → Reader A → List ℕ → A → Type 0
Reads r bs a =
    (b : Buffer) (rest : List ℕ)
    → IsAt b (bs ++ rest)
    → (b' : Buffer) × (r b ≡ (b', a)) × IsAt b' rest

first-append : (bs rest : List ℕ) → first (length bs) (bs ++ rest) ≡ bs
unfolding first
first-append [] rest = refl
first-append (b ∷ bs) rest = ap (λ (t : List ℕ). b ∷ t) (first-append bs rest)

skip-append :
    (n : ℕ) (all bs rest : List ℕ) → skip n all ≡ bs ++ rest → skip (n + length bs) all ≡ rest
unfolding skip
skip-append zero [] [] rest h = ground arith
skip-append zero [] (b ∷ bs) rest h = ground arith
skip-append zero (a ∷ all) [] rest h = ground arith
skip-append zero (a ∷ all) (b ∷ bs) rest h = ground (arith, skip-append zero all bs rest)
skip-append (suc n) [] [] rest h = ground arith
skip-append (suc n) [] (b ∷ bs) rest h = ground arith
skip-append (suc n) (a ∷ all) bs rest h =
    let shift : suc n + length bs ≡ suc (n + length bs) = omega arith in
    rw (shift) (skip-append n all bs rest h)

-- The position after n bytes.
moved : ℕ → Buffer → Buffer
moved n b = record b { read = b.read + n }

moved-IsAt : (b : Buffer) (bs rest : List ℕ) → IsAt b (bs ++ rest) → IsAt (moved (length bs) b) rest
unfolding moved
moved-IsAt b bs rest h = record {
  is_valid = h.is_valid;
  left = skip-append b.read b.bytes bs rest h.left;
  within = omega (arith, h.within, length-append bs rest);
  small = h.small;
}

get-moved :
    {A : Type 0} (value : List ℕ → A) (old : A) (b : Buffer) (bs rest : List ℕ)
    → IsAt b (bs ++ rest)
    → get (length bs) value old b ≡ (moved (length bs) b, value bs)
unfolding get check_size moved
get-moved value old b bs rest h =
    let room : b.read + length bs ≤ length b.bytes =
      omega (arith, h.within, length-append bs rest) in
    let same : first (length bs) (skip b.read b.bytes) ≡ bs = rw (h.left) (first-append bs rest) in
    ground (arith, h.small, h.is_valid)

pub get-Reads :
    {A : Type 0} (n : ℕ) (value : List ℕ → A) (old : A) (bs : List ℕ) (a : A)
    → length bs ≡ n
    → value bs ≡ a
    → Reads (get n value old) bs a
get-Reads n value old bs a e v b rest h =
    rw (← e, ← v) (moved (length bs) b, get-moved value old b bs rest h, moved-IsAt b bs rest h)

pub get_byte-Reads : (old n : ℕ) → Reads (get_byte old) (n ∷ []) n
unfolding get_byte number
get_byte-Reads old n = get-Reads 1 (number 0) old (n ∷ []) n refl (omega arith)

pub get_half-Reads : (old n : ℕ) → n < 65536 → Reads (get_half old) (half_bytes n) n
unfolding get_half half_bytes number
get_half-Reads old n h = get-Reads 2 (number 0) old (half_bytes n) n refl (omega arith)

pub get_word-Reads : (old n : ℕ) → n < 4294967296 → Reads (get_word old) (word_bytes n) n
unfolding get_word word_bytes number
get_word-Reads old n h = get-Reads 4 (number 0) old (word_bytes n) n refl (omega arith)

-- The bytes of a text: its length, and then its characters.
unfoldable pub text_bytes : Str → List ℕ
unfolding word_bytes
text_bytes s = word_bytes (length s) ++ s

pub length-text_bytes : (s : Str) → length (text_bytes s) ≡ 4 + length s
unfolding text_bytes word_bytes
length-text_bytes s = omega arith

pub bind-Reads :
    {A B : Type 0} (m : Reader A) (f : A → Reader B) (bs cs : List ℕ) (a : A) (c : B)
    → Reads m bs a
    → Reads (f a) cs c
    → Reads (m >>= f) (bs ++ cs) c
unfolding ◌>>=◌
bind-Reads m f bs cs a c hm hf b rest h =
    let (b', e, h') = hm b (cs ++ rest) (rw (← append_assoc bs cs rest) h) in
    let (b'', e', h'') = hf b' rest h' in (b'', rw (e) e', h'')

-- What get_text does behind the length.
abbrev text_of : ℕ → Reader Str
text_of n b = if ltb 0 n then get n (λ s. s) [] b else (b, [])

text_of-Reads : (s : Str) → Reads (text_of (length s)) s s
text_of-Reads [] b rest h = (b, refl, h)
text_of-Reads (c ∷ s) b rest h =
    let positive : ltb 0 (suc (length s)) ≡ true = ground arith in
    rw (positive) (get-Reads (length (c ∷ s)) (λ t. t) [] (c ∷ s) (c ∷ s) refl refl b rest h)

pub get_text-Reads : (s : Str) → length s < 4294967296 → Reads get_text (text_bytes s) s
unfolding get_text text_bytes ◌>>=◌
get_text-Reads s h =
    bind-Reads (get_word 0) text_of (word_bytes (length s)) s (length s) s
      (get_word-Reads 0 (length s) h) (text_of-Reads s)

module _ {F : Type 0} ⦃fb : FloatBytes F⦄ where
  pub get_float-Reads : IsFaithful fb → (old f : F) → Reads (get_float old) (fb.to_bytes f) f
  unfolding get_float
  get_float-Reads ok old f = get-Reads 4 fb.of_bytes old (fb.to_bytes f) f (ok.four f) (ok.back f)
