-- ===== src/Message/MsgType.antt =====
-- shared/Message-v2/include/Shared/Message-v2/Message.hpp: the `Type` of each message.
use fix4_2_protocol.Base.{ℕ}

abbrev pub heart_beat : ℕ
heart_beat = b'0'

abbrev pub test_request : ℕ
test_request = b'1'

abbrev pub session_reject : ℕ
session_reject = b'3'

abbrev pub logout : ℕ
logout = b'5'

abbrev pub execution_report : ℕ
execution_report = b'8'

abbrev pub business_reject : ℕ
business_reject = b'j'

abbrev pub logon : ℕ
logon = b'A'

abbrev pub new_order_single : ℕ
new_order_single = b'D'

abbrev pub order_cancel_request : ℕ
order_cancel_request = b'F'
