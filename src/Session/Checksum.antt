-- ===== src/Session/Checksum.antt =====
-- server/src/ProcessUnit/Network/TCPOutput.cpp and TCPInput.cpp, shared/Utils/include/Shared/Utils/Utils.inl:
-- the checksum that one side writes and the other verifies.
use fix4_2_protocol.Base.{
  ℕ, zero, suc, Option, none, some, ◌<◌, ◌/◌, Str, codes, str_eq, ◌==◌, ltb, false, if◌then◌else◌,
  List, [], ◌∷◌, ◌++◌, ◌≡◌, refl, ◌∙◌, ap, arith, ◌+◌, ◌-◌, ◌%◌, ◌^◌, Bool-cases, inl, inr,
  append_assoc, append-nil,
}
use fix4_2_protocol.Message.Convert.{RejectError, ok, err, value_oorange, req_tag_missing}
use fix4_2_protocol.Message.Convert.Unsigned.{unsigned_to_fix, to_chars, digits, u8_from_fix, u8}
use fix4_2_protocol.Message.Convert.Unsigned.RoundTrip.{unsigned_from_fix-to_fix}

-- A `char`, which is signed, as a `uint32_t`.
unfoldable pub char_word : ℕ → ℕ
char_word c = if ltb c 128 then c else c + 4294967040

-- The loop of `AddCheckSum`, and of `CountCheckSum`, from a sum on.
unfoldable pub sum_from : ℕ → Str → ℕ
unfolding char_word
sum_from n [] = n
sum_from n (c ∷ s) = sum_from ((n + char_word c) % 4294967296) s

-- `AddCheckSum`
unfoldable pub add_check_sum : Str → Str
unfolding sum_from unsigned_to_fix
add_check_sum msg = msg ++ codes "10=" ++ unsigned_to_fix [] (sum_from 0 msg % 256) ++ 1 ∷ []

-- `CountCheckSum`
unfoldable pub count_check_sum : Str → ℕ
unfolding sum_from
count_check_sum s = (sum_from 0 s + 1) % 4294967296

last_token : Str → List Str
last_token [] = []
last_token (c ∷ t) = (c ∷ t) ∷ []

-- `utils::split`: `getline` gives no token at the end of the text.
unfoldable pub split_from : ℕ → Str → Str → List Str
unfolding last_token
split_from sep token [] = last_token token
split_from sep token (c ∷ s) =
    let start = split_from sep [] s in
    let more = split_from sep (token ++ c ∷ []) s in if c == sep then token ∷ start else more

unfoldable pub split : ℕ → Str → List Str
unfolding split_from
split sep s = split_from sep [] s

-- `checksum` and `last_checksum` in the loop of `buildHeader`.
unfoldable pub running : ℕ → ℕ → List Str → ℕ × ℕ
unfolding count_check_sum
running sum last [] = (sum, last)
running sum last (p ∷ ps) = running ((sum + count_check_sum p) % 4294967296) (count_check_sum p) ps

-- `verifyCheckSum` on the last field of the message, as `buildHeader` has split it; `none` where it passes.
unfoldable pub verify_check_sum : ℕ → Str × Str → Option RejectError
unfolding u8_from_fix
verify_check_sum sum (key, value) =
    if str_eq key (codes "10")
    then elim (u8_from_fix value) [
      | err e ↦ some e
      | ok n ↦
          if n == sum % 256
          then none
          else some (record {
            reason = value_oorange;
            message = codes "Miss match on checksum";
            tag = some 10;
          })
    ]
    else some (record {
      reason = req_tag_missing;
      message = codes "Last tag should be CheckSum";
      tag = some 10;
    })

sum_from-append : (n : ℕ) (s t : Str) → sum_from n (s ++ t) ≡ sum_from (sum_from n s) t
unfolding sum_from
sum_from-append n [] t = refl
sum_from-append n (c ∷ s) t = sum_from-append ((n + char_word c) % 4294967296) s t

-- The sum from a start is the start plus the sum from 0.
sum_from_start :
    (n m : ℕ) (s : Str) → sum_from ((n + m) % 4294967296) s ≡ (n + sum_from m s) % 4294967296
unfolding sum_from
sum_from_start n m [] = refl
sum_from_start n m (c ∷ s) =
    let e : ((n + m) % 4294967296 + char_word c) % 4294967296
        ≡ (n + (m + char_word c) % 4294967296) % 4294967296 =
      omega arith in
    rw e (sum_from_start n ((m + char_word c) % 4294967296) s)

-- No separator.
abbrev pub Plain : Str → Type 0
Plain [] = Unit {0}
Plain (c ∷ s) = ((c == 1) ≡ false) × Plain s

split-Plain : (token t : Str) → Plain t → split_from 1 token (t ++ 1 ∷ []) ≡ (token ++ t) ∷ []
unfolding split_from last_token
split-Plain token [] p = rw (append-nil token) refl
split-Plain token (c ∷ t) (e, p) =
    rw e (split-Plain (token ++ c ∷ []) t p ∙ ap (λ l. l ∷ []) (append_assoc token (c ∷ []) t))

-- A separator closes a token: what the loop adds for the token is what its bytes and the separator add.
close_token :
    (sum : ℕ) (token t : Str)
    → ((sum + count_check_sum token) % 4294967296 + sum_from 0 t) % 4294967296
      ≡ (sum + sum_from ((sum_from 0 token + 1) % 4294967296) t) % 4294967296
unfolding count_check_sum
close_token sum token t =
    let e : ((sum_from 0 token + 1) + 0) % 4294967296 ≡ (sum_from 0 token + 1) % 4294967296 =
      omega arith in
    let start = rw e at (sum_from_start (sum_from 0 token + 1) 0 t) in omega (arith, start)

running_split :
    (sum last : ℕ) (token s t : Str)
    → Plain t
    → running sum last (split_from 1 token (s ++ 1 ∷ t ++ 1 ∷ [])) ≡ (
      ((sum + sum_from (sum_from 0 token) (s ++ 1 ∷ [])) % 4294967296 + count_check_sum t)
          % 4294967296,
      count_check_sum t,
    )
unfolding split_from running count_check_sum sum_from char_word
running_split sum last token [] t p = rw (split-Plain [] t p) refl
running_split sum last token (c ∷ s) t p = elim (Bool-cases (c == 1)) [
  | inl e ↦
      let same : c ≡ 1 = ground arith in
      rw same (
        running_split ((sum + count_check_sum token) % 4294967296) (count_check_sum token) [] s t p
        ∙ ap (λ k. ((k + count_check_sum t) % 4294967296, count_check_sum t))
            (close_token sum token (s ++ 1 ∷ [])))
  | inr e ↦ rw e (
      running_split sum last (token ++ c ∷ []) s t p
      ∙ ap
          (λ k. (
            ((sum + sum_from k (s ++ 1 ∷ [])) % 4294967296 + count_check_sum t) % 4294967296,
            count_check_sum t,
          ))
          (sum_from-append 0 token (c ∷ [])))
]

digits-Plain : (fuel n : ℕ) (out : Str) → Plain out → Plain (digits fuel n out)
unfolding digits
digits-Plain zero n out p = p
digits-Plain (suc fuel) n out p =
    let first : ((b'0' + n % 10) == 1) ≡ false = ground arith in
    elim (Bool-cases (ltb n 10)) [
      | inl e ↦ rw e (first, p)
      | inr e ↦ rw e (digits-Plain fuel (n / 10) ((b'0' + n % 10) ∷ out) (first, p))
    ]

written-Plain : (n : ℕ) → Plain (unsigned_to_fix [] n)
unfolding unsigned_to_fix to_chars
written-Plain n = digits-Plain (suc n) n [] tt

received :
    (s ds : Str)
    → Plain ds
    → let msg = s ++ 1 ∷ [] in
      let r = running 0 0 (split 1 (msg ++ codes "10=" ++ ds ++ 1 ∷ [])) in
      (r.0 + (4294967296 - r.1)) % 4294967296 % 256 ≡ sum_from 0 msg % 256
unfolding split count_check_sum sum_from
received s ds p =
    let t = codes "10=" ++ ds in
    let plain : Plain t = (refl, (refl, (refl, p))) in
    let inner : ((s ++ 1 ∷ []) ++ codes "10=") ++ ds ≡ s ++ (1 ∷ t) =
      append_assoc (s ++ 1 ∷ []) (codes "10=") ds ∙ append_assoc s (1 ∷ []) t in
    let same = ap (λ l. l ++ 1 ∷ []) inner in
    rw (same, running_split 0 0 [] s t plain) (omega arith)

-- The sum of a text that ends with a separator, as the receiver's loop has it at the end of the message
-- that `AddCheckSum` makes of the text, less the sum of the last field.
abbrev pub received_sum : Str → ℕ
received_sum msg =
    let r = running 0 0 (split 1 (add_check_sum msg)) in (r.0 + (4294967296 - r.1)) % 4294967296

byte_small : (n : ℕ) → n % 256 < 2 ^ 8
byte_small n = omega arith

-- The receiver accepts the checksum that the sender writes: for every text that ends with a separator,
-- the sum over the fields into which the receiver splits the message, less that of the last, passes against the number that
-- `AddCheckSum` writes behind `10=`.
pub verify_check_sum-add_check_sum :
    (s : Str)
    → verify_check_sum
        (received_sum (s ++ 1 ∷ []))
        (codes "10", unsigned_to_fix [] (sum_from 0 (s ++ 1 ∷ []) % 256))
      ≡ none
unfolding add_check_sum verify_check_sum str_eq
verify_check_sum-add_check_sum s =
    let n = sum_from 0 (s ++ 1 ∷ []) % 256 in
    let sums = received s (unsigned_to_fix [] n) (written-Plain n) in
    let read = unsigned_from_fix-to_fix u8 n (byte_small (sum_from 0 (s ++ 1 ∷ []))) in
    rw (read, sums) (ground arith)
