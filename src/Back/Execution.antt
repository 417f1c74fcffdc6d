-- ===== src/Back/Execution.antt =====
-- client/back/src/ProcessUnit/Market/Execution.cpp: what the front end is told of a report.
use fix4_2_protocol.Base.{ℕ, codes, Option, none, some}
use fix4_2_protocol.Core.Enum.{TransactionType, OrderStatus, Side, side_value}
use fix4_2_protocol.Message.Types.{ExecutionReport, SessionReject}
use fix4_2_protocol.OrderBook.{Outcome, returned, thrown}
use fix4_2_protocol.Network.Buffer.{Buffer, FloatBytes}
use fix4_2_protocol.Ipc.Types.{MessageType}
use fix4_2_protocol.Ipc.Helper.{execution_frame}
use fix4_2_protocol.Units.{Parsed, parsed, refused}

-- Nothing, a reject for the server, or a message for the front end.
pub data Notice : Type 0 where
  no_notice : Notice
  reject_notice : SessionReject → Notice
  front_notice : Buffer → Notice

-- `value()` of an optional.
abbrev value : {A B : Type 0} → Option A → (A → Outcome B) → Outcome B
value none f = thrown (codes "bad optional access")
value (some a) f = f a

-- The byte of a side; `unset` where the tag is as the constructor makes it.
abbrev side_byte : ℕ → Option Side → ℕ
side_byte unset none = unset
side_byte unset (some s) = side_value s

module _ {F : Type 0} ⦃fb : FloatBytes F⦄ where
  -- `sendNotificationNew`
  unfoldable pub send_notification : ℕ → MessageType → ExecutionReport F → Outcome Notice
  send_notification unset t r = value r.price (λ p. value r.order_qty (λ q. returned (
      front_notice (
        execution_frame t (record {
          symbol = r.symbol;
          order_id = r.order_id;
          exec_id = r.exec_id;
          avg_price = r.avg_px;
          price = p;
          side = side_byte unset r.side;
          quantity = q;
          remain_qty = r.leaves_qty;
        })))))

  -- `treatNewOrder`
  unfoldable pub treat_new_order : ℕ → OrderStatus → ExecutionReport F → Outcome Notice
  unfolding send_notification
  treat_new_order unset OrderStatus.new_order r = send_notification unset MessageType.exec_new r
  treat_new_order unset OrderStatus.partially_filled r =
      send_notification unset MessageType.exec_event r
  treat_new_order unset OrderStatus.filled r = send_notification unset MessageType.exec_event r
  treat_new_order unset _ r = returned no_notice

  unfoldable pub treat_report : ℕ → TransactionType → ExecutionReport F → Outcome Notice
  unfolding treat_new_order
  treat_report unset TransactionType.new r = treat_new_order unset r.exec_type r
  treat_report unset _ r = returned no_notice

  -- `onInput`
  unfoldable pub execution_on_input : ℕ → Parsed (ExecutionReport F) → Outcome Notice
  unfolding treat_report
  execution_on_input unset (refused r) = returned (reject_notice r)
  execution_on_input unset (parsed r) = treat_report unset r.exec_trans_type r
