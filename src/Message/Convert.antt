-- ===== src/Message/Convert.antt =====
-- shared/Message-v2/src/FixConvertor.cpp: `from_FIX` and `to_FIX` for the one-character enumerations
-- and for `char`. The out-parameter of a conversion that fails is dropped, as every caller drops it.
pub mod Time
pub mod Text
pub mod Enums
pub mod Unsigned
use fix4_2_protocol.Base.{
  Str, codes, ℕ, zero, suc, ◌≡◌, ◌≢◌, ◌↔◌, refl, List, [], ◌∷◌, ◌++◌, Option, none, some, Bool,
  true, false, arith, ltb, ◌==◌, if◌then◌else◌, length,
}

-- `fix::RejectError` of the FIX-Message library, by the names that this repository uses.
pub data Reason : Type 0 where
  value_oorange incorrect_format req_tag_missing : Reason

pub record RejectError : Type 0 where
  pub reason : Reason
  pub message : Str
  pub tag : Option ℕ

pub data Result {ℓ} (A : Type ℓ) : Type ℓ where
  ok : A → Result A
  err : RejectError → Result A

abbrev pub reject_error : Reason → Str → RejectError
reject_error r m = record { reason = r; message = m; tag = none }

-- `_value[0]`, which is NUL at the end of a text.
abbrev pub first_char : Str → ℕ
first_char [] = 0
first_char (c ∷ s) = c

-- The case label of a `switch` whose value is the one read.
pub switch {ℓ} : {E : Type ℓ} → (E → ℕ) → ℕ → List E → Option E
switch value c [] = none
switch value c (l ∷ ls) = if value l == c then some l else switch value c ls

-- What an enumeration brings to its `from_FIX`: the value of each enumerator, the case labels and the
-- message of the default case.
pub record FixEnum (E : Type 0) : Type 0 where
  pub value : E → ℕ
  pub labels : List E
  pub expected : Str
  pub switch_value : (v : E) → switch value (value v) labels ≡ some v
  pub not_nul : (v : E) → value v ≢ 0

module _ {E : Type 0} ⦃e : FixEnum E⦄ where
  select : Option E → Result E
  select none = err (reject_error value_oorange e.expected)
  select (some v) = ok v

  unfoldable pub from_fix : Str → Result E
  unfolding select switch
  from_fix s =
      if ltb 1 (length s)
      then err (reject_error incorrect_format (codes "Value to long"))
      else select (switch e.value (first_char s) e.labels)

  unfoldable pub to_fix : Str → E → Str
  to_fix out v = out ++ e.value v ∷ []

  switch_sound : (c : ℕ) (ls : List E) (v : E) → switch e.value c ls ≡ some v → e.value v ≡ c
  unfolding switch
  switch_sound c [] v h = cc
  switch_sound c (l ∷ ls) v h = ground (arith, switch_sound c ls v)

  select_ok : (o : Option E) (v : E) → select o ≡ ok v → o ≡ some v
  unfolding select
  select_ok none v h = cc
  select_ok (some w) v h = cc

  read_value : (c : ℕ) (v : E) → select (switch e.value c e.labels) ≡ ok v → e.value v ≡ c
  read_value c v h = switch_sound c e.labels v (select_ok _ v h)

  -- A text is accepted with the value v exactly when it is what `to_FIX` writes for v: one character,
  -- the value of v. The empty text, longer texts and other characters are refused.
  pub from_fix-eq-ok_iff : (s : Str) (v : E) → (from_fix s ≡ ok v) ↔ (s ≡ to_fix [] v)
  unfolding from_fix to_fix
  from_fix-eq-ok_iff s v = (parse s, λ h. rw (h, e.switch_value v))
    where
      parse : (s : Str) → from_fix s ≡ ok v → s ≡ to_fix [] v
      parse [] h = absurd (e.not_nul v (read_value 0 v h))
      parse (c ∷ []) h = rw (read_value c v h)
      parse (c ∷ d ∷ s) h = ground arith
