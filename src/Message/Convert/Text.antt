-- ===== src/Message/Convert/Text.antt =====
-- shared/Message-v2/src/FixConvertor.cpp: `from_FIX` and `to_FIX` for `std::string` and for `float`.
-- `std::from_chars` and `std::to_chars` of a float are parameters.
use fix4_2_protocol.Base.{Str, codes, [], ◌∷◌, ◌++◌}
use fix4_2_protocol.Message.Convert.{Result, ok, err, reject_error, value_oorange, incorrect_format}

unfoldable pub text_from_fix : Str → Result Str
text_from_fix s = ok s

unfoldable pub text_to_fix : Str → Str → Str
text_to_fix out s = out ++ s

-- What `from_chars` reads of a text, with what follows the number.
pub data FloatChars (F : Type 0) : Type 0 where
  parsed : F → Str → FloatChars F
  invalid_argument result_out_of_range : FloatChars F

module _ {F : Type 0} where
  unfoldable pub float_result : FloatChars F → Result F
  float_result (parsed x []) = ok x
  float_result (parsed x (c ∷ s)) =
      err (reject_error incorrect_format (codes "Unknow error will parsing float"))
  float_result invalid_argument = err (reject_error incorrect_format (codes "Expected an float"))
  float_result result_out_of_range =
      err (reject_error value_oorange (codes "Value out of range of float"))

  unfoldable pub float_from_fix : (Str → FloatChars F) → Str → Result F
  unfolding float_result
  float_from_fix from_chars s = float_result (from_chars s)

  unfoldable pub float_to_fix : (F → Str) → Str → F → Str
  float_to_fix to_chars out x = out ++ to_chars x
