-- ===== src/Market/NewOrder.antt =====
-- server/src/ProcessUnit/Market/NewOrder.cpp: the unit that checks new orders, and its worker.
use fix4_2_protocol.Base.{
  Str, codes, Bool, true, false, not, if◌then◌else◌, Option, none, some, [], ◌∷◌, ◌++◌,
}
use fix4_2_protocol.Core.Enum.{
  Side, OrderType, OrderStatus, RejectReasonBusiness, TransactionType, OrderRejectReason,
}
use fix4_2_protocol.Core.Float.{Float}
use fix4_2_protocol.Message.Types.{BusinessReject, ExecutionReport, NewOrderSingle}
use fix4_2_protocol.OrderBook.{Freed, OrderInfo, Outcome, thrown, returned}
use fix4_2_protocol.OrderBook.Api.{allow, has, add}
use fix4_2_protocol.Market.{
  Market, Input, business_reject, execution_report, append, finish_ticket, unlock_market, and_then,
}

-- The two `switch` of `onInput`.
unfoldable pub is_limit : OrderType → Bool
is_limit OrderType.limit = true
is_limit _ = false

unfoldable pub side_supported : Side → Bool
side_supported Side.buy = true
side_supported Side.buy_minus = true
side_supported Side.sell = true
side_supported Side.sell_plus = true
side_supported _ = false

module _ {F : Type 0} where
  -- The rejects of `onInput`, which differ in the reason and the text.
  unfoldable pub reject : Input (NewOrderSingle F) → RejectReasonBusiness → Str → BusinessReject
  reject i reason text = record {
    ref_seq_num = some i.header.msg_seq_num;
    ref_msg_type = i.header.msg_type;
    business_reject_ref_id = some i.message.cl_ord_id;
    business_reject_reason = reason;
    text = some text;
  }

  unfoldable pub missing : Input (NewOrderSingle F) → Str → Market F → Market F
  unfolding append reject finish_ticket
  missing i text m =
      append i (business_reject (reject i RejectReasonBusiness.cond_req_field_missing text))
        (finish_ticket i.execution_id m)

  -- `notSupportedOrderType`
  unfoldable pub not_supported_order_type : Input (NewOrderSingle F) → Market F → Market F
  unfolding append reject
  not_supported_order_type i m =
      append i
        (business_reject (reject i RejectReasonBusiness.other (codes "Not supported order type"))) m

  -- `notSupportedSide`
  unfoldable pub not_supported_side : Input (NewOrderSingle F) → Market F → Market F
  unfolding append reject finish_ticket
  not_supported_side i m =
      append i (business_reject (reject i RejectReasonBusiness.other (codes "Not supported side")))
        (finish_ticket i.execution_id m)

  -- The first `switch`: an order type that is not supported is rejected, and the input goes on.
  unfoldable pub check_type : Input (NewOrderSingle F) → Market F → Market F
  unfolding is_limit not_supported_order_type finish_ticket
  check_type i m =
      if is_limit i.message.ord_type
      then m
      else finish_ticket i.execution_id (not_supported_order_type i m)

  -- The second `switch`, and the push.
  unfoldable pub check_side : Input (NewOrderSingle F) → Market F → Market F
  unfolding side_supported not_supported_side finish_ticket
  check_side i m =
      if side_supported i.message.side
      then record m { new_orders = m.new_orders ++ i ∷ [] }
      else finish_ticket i.execution_id (not_supported_side i m)

  -- `onInput`
  unfoldable pub new_order_on_input : Input (NewOrderSingle F) → Market F → Market F
  unfolding missing check_type check_side
  new_order_on_input i m = elim i.message.price [
    | none ↦ missing i (codes "Price required when OrderType is Limit") m
    | some p ↦ elim i.message.order_qty [
      | none ↦ missing i (codes "Order quantity required") m
      | some q ↦ check_side i (check_type i m)
    ]
  ]

module _ {F : Type 0} ⦃fl : Float F⦄ where
  -- The order that the worker makes of an input; `value` throws on an empty optional.
  unfoldable pub order_info : Input (NewOrderSingle F) → Outcome (OrderInfo F)
  order_info i = elim i.message.price [
    | none ↦ thrown (codes "bad optional access")
    | some p ↦ elim i.message.order_qty [
      | none ↦ thrown (codes "bad optional access")
      | some q ↦ returned (record {
        execid = i.execution_id;
        price = p;
        order = record {
          user_id = i.client.user_id;
          order_id = i.message.cl_ord_id;
          original_qty = q;
          remain_qty = q;
          avg_price = fl.zero;
          side = i.message.side;
          status = OrderStatus.new_order;
        };
      })
    ]
  ]

  unfoldable pub rejected :
      Market F → OrderInfo F → Option OrderRejectReason → Str → ExecutionReport F
  rejected m info reason text = record {
    order_id = info.order.order_id;
    cl_ord_id = none;
    exec_id = info.execid;
    exec_trans_type = TransactionType.new;
    exec_type = OrderStatus.rejected;
    ord_status = OrderStatus.rejected;
    ord_rej_reason = reason;
    symbol = m.ob.name;
    side = some info.order.side;
    order_qty = some info.order.original_qty;
    ord_type = some OrderType.limit;
    price = some info.price;
    leaves_qty = fl.zero;
    last_shares = some fl.zero;
    last_px = some fl.zero;
    cum_qty = fl.zero;
    avg_px = fl.zero;
    text = some text;
  }

  unfoldable pub acknowledged : Market F → OrderInfo F → ExecutionReport F
  acknowledged m info = record {
    order_id = info.order.order_id;
    cl_ord_id = none;
    exec_id = info.execid;
    exec_trans_type = TransactionType.new;
    exec_type = OrderStatus.new_order;
    ord_status = OrderStatus.new_order;
    ord_rej_reason = none;
    symbol = m.ob.name;
    side = some info.order.side;
    order_qty = some info.order.original_qty;
    ord_type = some OrderType.limit;
    price = some info.price;
    leaves_qty = info.order.remain_qty;
    last_shares = some fl.zero;
    last_px = some fl.zero;
    cum_qty = fl.zero;
    avg_px = fl.zero;
    text = none;
  }

  unfoldable pub refuse :
      Input (NewOrderSingle F)
      → OrderInfo F
      → Option OrderRejectReason
      → Str
      → Market F
      → Outcome (Market F)
  unfolding append unlock_market rejected and_then
  refuse i info reason text m =
      and_then (unlock_market m)
        (λ m'. returned (append i (execution_report (rejected m' info reason text)) m'))

module _ {F : Type 0} ⦃fl : Float F⦄ ⦃fr : Freed F⦄ where
  unfoldable pub accept : Input (NewOrderSingle F) → OrderInfo F → Market F → Outcome (Market F)
  unfolding append unlock_market acknowledged and_then add
  accept i info m = and_then (add m.ob info) (λ ob.
      unlock_market (record (append i (execution_report (acknowledged m info)) m) { ob = ob }))

  -- The worker's work on one order, from the moment it has the lock.
  unfoldable pub place : Input (NewOrderSingle F) → OrderInfo F → Market F → Outcome (Market F)
  unfolding refuse accept has allow
  place i info m =
      let (ob, allowed) = allow m.ob info.order.side in
      let m' : Market F = record m { ob = ob } in
      if not allowed
      then refuse i info none (codes "Invalid tick direction for selected side") m'
      else if not (has ob info.order.order_id)
      then accept i info m'
      else refuse i info (some OrderRejectReason.duplicate) (codes "Order Id already used") m'

  -- The same from the input: the code makes the order before it takes the lock.
  unfoldable pub new_order_work : Input (NewOrderSingle F) → Market F → Outcome (Market F)
  unfolding order_info place and_then
  new_order_work i m = and_then (order_info i) (λ info. place i info m)
