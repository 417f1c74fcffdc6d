-- ===== src/Core/Float.antt =====
-- `float`, which `Quantity` and `Price` of shared/Core/include/Shared/Core/Core.hpp are. The operations
-- are an interface; what a theorem needs of them is a hypothesis of its own, from the laws below, which
-- IEEE 754 single precision meets on the numbers that are said.
use fix4_2_protocol.Base.{
  ℕ, ◌-◌, ◌^◌, ◌≤◌, ◌≡◌, Bool, true, false, refl, not, ltb, leb, ◌==◌, if◌then◌else◌, arith, ◌+◌,
  ◌*◌, ◌/◌,
}

pub record Float (F : Type 0) : Type 0 where
  pub zero : F
  pub lt : F → F → Bool
  pub le : F → F → Bool
  pub eq : F → F → Bool
  pub add : F → F → F
  pub sub : F → F → F
  pub mul : F → F → F
  pub div : F → F → F

module _ {F : Type 0} ⦃fl : Float F⦄ where
  -- `std::min`
  abbrev pub min : F → F → F
  min a b = if fl.lt b a then b else a

  -- `std::less<Price>`, `std::greater<Price>`, `std::less_equal<Price>`, `std::greater_equal<Price>`
  abbrev pub less : F → F → Bool
  less a b = fl.lt a b

  abbrev pub greater : F → F → Bool
  greater a b = fl.lt b a

  abbrev pub less_equal : F → F → Bool
  less_equal a b = fl.le a b

  abbrev pub greater_equal : F → F → Bool
  greater_equal a b = fl.le b a

-- A number less itself is zero: so it is of every finite float.
abbrev pub SubSelf : {F : Type 0} → Float F → Type 0
SubSelf {F} fl = (a : F) → fl.eq (fl.sub a a) fl.zero ≡ true

-- `<` and `<=` compare as on a line, on all numbers but NaN and -0.
pub record IsLinear {F : Type 0} (fl : Float F) : Type 0 where
  pub le_lt : (a b : F) → fl.le a b ≡ not (fl.lt b a)
  pub lt_irrefl : (a : F) → fl.lt a a ≡ false
  pub lt_trans : (a b c : F) → fl.lt a b ≡ true → fl.lt b c ≡ true → fl.lt a c ≡ true
  pub lt_connex : (a b : F) → fl.lt a b ≡ false → fl.lt b a ≡ false → a ≡ b
  pub lt_split : (a b c : F) → fl.lt a c ≡ true → fl.lt b c ≡ false → fl.lt a b ≡ true

-- Whole numbers up to 2 ^ 24 are floats, and comparison and subtraction are exact on them.
abbrev pub whole_limit : ℕ
whole_limit = 2 ^ 24

-- `num` is the float of a whole number, and `whole` the conversion back.
pub record IsExact {F : Type 0} (fl : Float F) (num : ℕ → F) (whole : F → ℕ) : Type 0 where
  pub whole_num : (n : ℕ) → n ≤ whole_limit → whole (num n) ≡ n
  pub num_zero : fl.zero ≡ num 0
  pub lt_num : (a b : ℕ) → a ≤ whole_limit → b ≤ whole_limit → fl.lt (num a) (num b) ≡ ltb a b
  pub eq_num : (a b : ℕ) → a ≤ whole_limit → b ≤ whole_limit → fl.eq (num a) (num b) ≡ (a == b)
  pub sub_num : (a b : ℕ) → a ≤ whole_limit → b ≤ a → fl.sub (num a) (num b) ≡ num (a - b)

-- Whole numbers as an instance, for tests: they meet the laws.
instance abbrev pub naturals : Float ℕ
naturals = record {
  zero = 0;
  lt = ltb;
  le = leb;
  eq = ◌==◌;
  add = λ a b. a + b;
  sub = λ a b. a - b;
  mul = λ a b. a * b;
  div = λ a b. a / b;
}

pub naturals-SubSelf : SubSelf naturals
naturals-SubSelf a = ground arith

pub naturals-IsLinear : IsLinear naturals
naturals-IsLinear = record {
  le_lt = λ a b. ground arith;
  lt_irrefl = λ a. ground arith;
  lt_trans = λ a b c h k. ground arith;
  lt_connex = λ a b h k. ground arith;
  lt_split = λ a b c h k. ground arith;
}

pub naturals-IsExact : IsExact naturals (λ n. n) (λ n. n)
naturals-IsExact = record {
  whole_num = λ n h. refl;
  num_zero = refl;
  lt_num = λ a b h k. refl;
  eq_num = λ a b h k. refl;
  sub_num = λ a b h k. refl;
}
