-- ===== src/Message/Tests.antt =====
-- The conversions at concrete values.
use fix4_2_protocol.Base.{codes, ◌≡◌, ◌≢◌, ◌↔◌, ◌≤◌, ◌^◌, some, ◌-◌, [], All, arith, length}
use fix4_2_protocol.Core.Enum.{Side, RejectReasonSession}
use fix4_2_protocol.Message.Convert.{from_fix, to_fix, ok, from_fix-eq-ok_iff}
use fix4_2_protocol.Message.Convert.Time.{
  CalendarTime, Calendar, IsWritable, time_from_fix, time_to_fix, made_time, time_from_fix-to_fix,
}
use fix4_2_protocol.Message.Convert.Enums.{side_fix}
use fix4_2_protocol.Message.Convert.Unsigned.{
  u8, u16, unsigned_from_fix, unsigned_to_fix, bits, session_from_fix, session_to_fix,
}
use fix4_2_protocol.Message.Convert.Unsigned.Language.{IsDigit, value, unsigned_from_fix-eq-ok_iff}
use fix4_2_protocol.Message.Convert.Unsigned.RoundTrip.{
  unsigned_from_fix-to_fix, session_from_fix-to_fix,
}

from_fix-eq-ok_iff_example :
    (from_fix (codes "3") ≡ ok Side.buy_minus) ↔ (codes "3" ≡ to_fix [] Side.buy_minus)
from_fix-eq-ok_iff_example = from_fix-eq-ok_iff (codes "3") Side.buy_minus

unsigned_from_fix-to_fix_example : unsigned_from_fix u16 (unsigned_to_fix [] 4096) ≡ ok 4096
unsigned_from_fix-to_fix_example = unsigned_from_fix-to_fix u16 4096 (omega arith)

unsigned_from_fix-eq-ok_iff_example : (unsigned_from_fix u8 (codes "007") ≡ ok 7) ↔ (
    (codes "007" ≢ [])
    × All IsDigit (codes "007")
    × (value 0 (codes "007") ≡ 7)
    × (7 ≤ 2 ^ bits u8 - 1))
unsigned_from_fix-eq-ok_iff_example = unsigned_from_fix-eq-ok_iff u8 (codes "007") 7

session_from_fix-to_fix_example :
    (session_from_fix (session_to_fix [] RejectReasonSession.invalid_msg_type)
      ≡ ok RejectReasonSession.invalid_msg_type)
    × (length (session_to_fix [] RejectReasonSession.invalid_msg_type) ≤ 2)
session_from_fix-to_fix_example = session_from_fix-to_fix RejectReasonSession.invalid_msg_type

-- 2025-12-31 23:59:58
abbrev last_evening : CalendarTime
last_evening = record { year = 2025; month = 12; mday = 31; hour = 23; min = 59; sec = 58 }

-- A system whose time points are calendar times of the zone UTC.
abbrev utc : Calendar CalendarTime
utc = record { mktime = λ c. some c; gmtime = λ c. c }

last_evening-IsWritable : IsWritable (utc.gmtime last_evening)
last_evening-IsWritable = record {
  year_fits = omega arith;
  month_fits = omega arith;
  mday_fits = omega arith;
  hour_fits = omega arith;
  min_fits = omega arith;
  sec_fits = omega arith;
}

time_from_fix-to_fix_example :
    time_from_fix utc (time_to_fix utc [] last_evening)
    ≡ made_time utc (utc.mktime (utc.gmtime last_evening))
time_from_fix-to_fix_example = time_from_fix-to_fix utc last_evening last_evening-IsWritable
