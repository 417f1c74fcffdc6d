-- ===== src/Message/Convert/Time.antt =====
-- shared/Message-v2/src/FixConvertor.cpp: `from_FIX` and `to_FIX` for a time point. The calendar of the system, `mktime` and
-- `gmtime`, is a parameter; a calendar time holds the year and the month as they are written.
use fix4_2_protocol.Base.{
  Str, codes, ℕ, ◌+◌, ◌/◌, ◌%◌, ◌<◌, ◌≡◌, refl, [], ◌∷◌, ◌++◌, ◌&&◌, arith, ◌==◌, if◌then◌else◌,
  Option, none, some,
}
use fix4_2_protocol.Message.Convert.{Result, ok, err, reject_error, value_oorange, incorrect_format}
use fix4_2_protocol.Message.Convert.Unsigned.{
  is_digit, FromChars, parsed, invalid_argument, result_out_of_range, from_chars, scan,
}

-- `tm_year + 1900`, `tm_mon + 1` and the rest of `std::tm`.
pub record CalendarTime : Type 0 where
  pub year : ℕ
  pub month : ℕ
  pub mday : ℕ
  pub hour : ℕ
  pub min : ℕ
  pub sec : ℕ

-- `mktime` gives -1 where it fails, here `none`.
pub record Calendar (T : Type 0) : Type 0 where
  pub mktime : CalendarTime → Option T
  pub gmtime : T → CalendarTime

number_read : FromChars → Option ℕ
number_read (parsed n rest) = some n
number_read invalid_argument = none
number_read result_out_of_range = none

-- `parse2` and `parse4`
unfoldable pub parse2 : ℕ → ℕ → Option ℕ
unfolding from_chars scan is_digit number_read
parse2 a b = if is_digit a && is_digit b then number_read (from_chars 255 (a ∷ b ∷ [])) else none

unfoldable pub parse4 : ℕ → ℕ → ℕ → ℕ → Option ℕ
unfolding from_chars scan is_digit number_read
parse4 a b c d =
    if is_digit a && (is_digit b && (is_digit c && is_digit d))
    then number_read (from_chars 65535 (a ∷ b ∷ c ∷ d ∷ []))
    else none

and_then : {A B : Type 0} → Option A → (A → Option B) → Option B
and_then none f = none
and_then (some a) f = f a

unfoldable pub read_calendar :
    Option ℕ → Option ℕ → Option ℕ → Option ℕ → Option ℕ → Option ℕ → Option CalendarTime
unfolding and_then
read_calendar y m d h i s = and_then y (λ year. and_then m (λ month. and_then d (λ mday.
    and_then h (λ hour. and_then i (λ min. and_then s (λ sec.
      some (record {
        year = year;
        month = month;
        mday = mday;
        hour = hour;
        min = min;
        sec = sec;
      })))))))

-- The two marks of a time that is not well written.
abbrev not_a_time : {T : Type 0} → Result T
not_a_time = err (reject_error incorrect_format (codes "Awaited a time format"))

module _ {T : Type 0} (calendar : Calendar T) where
  unfoldable pub made_time : Option T → Result T
  made_time none = err (reject_error value_oorange (codes "Unknow error on time convertion"))
  made_time (some t) = ok t

  unfoldable pub of_calendar : Option CalendarTime → Result T
  unfolding made_time
  of_calendar none = not_a_time
  of_calendar (some c) = made_time (calendar.mktime c)

  -- A text of seventeen characters.
  unfoldable pub time_from_fix : Str → Result T
  unfolding of_calendar read_calendar parse2 parse4
  time_from_fix
        (a ∷ b ∷ c ∷ d ∷ e ∷ f ∷ g ∷ h ∷ dash ∷ i ∷ j ∷ colon ∷ k ∷ l ∷ colon' ∷ m ∷ n ∷ []) =
      if (dash == b'-') && ((colon == b':') && (colon' == b':'))
      then of_calendar (
          read_calendar (parse4 a b c d) (parse2 e f) (parse2 g h) (parse2 i j) (parse2 k l)
            (parse2 m n))
      else not_a_time
  time_from_fix _ = not_a_time

  unfoldable pub calendar_text : CalendarTime → Str
  calendar_text c =
      (b'0' + c.year / 1000 % 10)
      ∷ (b'0' + c.year / 100 % 10)
      ∷ (b'0' + c.year / 10 % 10)
      ∷ (b'0' + c.year % 10)
      ∷ (b'0' + c.month / 10)
      ∷ (b'0' + c.month % 10)
      ∷ (b'0' + c.mday / 10)
      ∷ (b'0' + c.mday % 10)
      ∷ b'-'
      ∷ (b'0' + c.hour / 10)
      ∷ (b'0' + c.hour % 10)
      ∷ b':'
      ∷ (b'0' + c.min / 10)
      ∷ (b'0' + c.min % 10)
      ∷ b':'
      ∷ (b'0' + c.sec / 10)
      ∷ (b'0' + c.sec % 10)
      ∷ []

  unfoldable pub time_to_fix : Str → T → Str
  unfolding calendar_text
  time_to_fix out t = out ++ calendar_text (calendar.gmtime t)

-- A year of at most four digits, and the rest of at most two.
pub record IsWritable (c : CalendarTime) : Type 0 where
  pub year_fits : c.year < 10000
  pub month_fits : c.month < 100
  pub mday_fits : c.mday < 100
  pub hour_fits : c.hour < 100
  pub min_fits : c.min < 100
  pub sec_fits : c.sec < 100

parse2_written : (n : ℕ) → n < 100 → parse2 (b'0' + n / 10) (b'0' + n % 10) ≡ some n
unfolding parse2
parse2_written n h = ground arith

parse4_written :
    (n : ℕ)
    → n < 10000
    → parse4 (b'0' + n / 1000 % 10) (b'0' + n / 100 % 10) (b'0' + n / 10 % 10) (b'0' + n % 10)
      ≡ some n
unfolding parse4
parse4_written n h = ground arith

-- A time whose calendar time has a year of at most four digits, and its other numbers at most two, is
-- read back from what to_FIX writes for it as the time that mktime makes of the calendar time that
-- gmtime gave, or as an error where mktime fails.
pub time_from_fix-to_fix :
    {T : Type 0} (calendar : Calendar T) (t : T)
    → IsWritable (calendar.gmtime t)
    → time_from_fix calendar (time_to_fix calendar [] t)
      ≡ made_time calendar (calendar.mktime (calendar.gmtime t))
unfolding time_from_fix time_to_fix
time_from_fix-to_fix calendar t w =
    let c = calendar.gmtime t in
    rw
      (
        parse4_written c.year w.year_fits,
        parse2_written c.month w.month_fits,
        parse2_written c.mday w.mday_fits,
        parse2_written c.hour w.hour_fits,
        parse2_written c.min w.min_fits,
        parse2_written c.sec w.sec_fits,
      )
      refl
