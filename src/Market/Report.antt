-- ===== src/Market/Report.antt =====
-- server/src/ProcessUnit/Market/OBEvent.cpp: the report of an event of the order book.
use fix4_2_protocol.Base.{ℕ, Str, Option, none, some, List}
use fix4_2_protocol.Core.Enum.{TransactionType, OrderType}
use fix4_2_protocol.Core.Float.{Float}
use fix4_2_protocol.Message.Types.{ExecutionReport}
use fix4_2_protocol.OrderBook.{Event}
use fix4_2_protocol.Units.Store.{Entry, find_user}

module _ {F : Type 0} ⦃fl : Float F⦄ where
  -- `exec_id` is the identifier that is generated. Price, ClOrdID and the texts stay as the constructor makes them.
  unfoldable pub event_report : Str → Str → Event F → ExecutionReport F
  event_report symbol exec_id e = record {
    order_id = e.order.order_id;
    cl_ord_id = none;
    exec_id = exec_id;
    exec_trans_type = TransactionType.new;
    exec_type = e.exec_status;
    ord_status = e.order.status;
    ord_rej_reason = none;
    symbol = symbol;
    side = some e.order.side;
    order_qty = some e.order.original_qty;
    ord_type = some OrderType.limit;
    price = none;
    leaves_qty = e.order.remain_qty;
    last_shares = some e.last_qty;
    last_px = some e.last_price;
    cum_qty = fl.sub e.order.original_qty e.order.remain_qty;
    avg_px = e.order.avg_price;
    text = none;
  }

  -- `createEvent`: the client's address and the report, where the client is in the store.
  unfoldable pub create_event : Str → Str → List Entry → Event F → Option (ℕ × ExecutionReport F)
  unfolding event_report find_user
  create_event symbol exec_id cs e = elim (find_user e.order.user_id cs) [
    | none ↦ none
    | some c ↦ some (c.address, event_report symbol exec_id e)
  ]
