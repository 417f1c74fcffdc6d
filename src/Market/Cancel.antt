-- ===== src/Market/Cancel.antt =====
-- server/src/ProcessUnit/Market/Cancel.cpp: the unit that checks cancel requests, and its worker.
use fix4_2_protocol.Base.{
  Str, codes, str_eq, Bool, false, not, if◌then◌else◌, Option, none, some, List, [], ◌∷◌, ◌++◌,
  ◌==◌,
}
use fix4_2_protocol.Core.Enum.{
  side_value, OrderStatus, RejectReasonBusiness, TransactionType, CancelRejectResponseTo,
  CancelRejectReason,
}
use fix4_2_protocol.Core.Float.{Float}
use fix4_2_protocol.Core.Order.{Order}
use fix4_2_protocol.Message.Types.{
  BusinessReject, ExecutionReport, OrderCancelReject, OrderCancelRequest,
}
use fix4_2_protocol.OrderBook.{Freed, Outcome, thrown, returned, undefined}
use fix4_2_protocol.OrderBook.Api.{
  buying, selling, unsupported, direction, has_on, get_order, cancel,
}
use fix4_2_protocol.Thread.QueueMutex.{front}
use fix4_2_protocol.Market.{
  Market, Input, business_reject, execution_report, order_cancel_reject, append, finish_ticket,
  unlock_market, and_then,
}

module _ {F : Type 0} where
  unfoldable pub quantity_missing : Input (OrderCancelRequest F) → BusinessReject
  quantity_missing i = record {
    ref_seq_num = some i.header.msg_seq_num;
    ref_msg_type = i.header.msg_type;
    business_reject_ref_id = some i.message.cl_ord_id;
    business_reject_reason = RejectReasonBusiness.cond_req_field_missing;
    text = some (codes "Quantity is required");
  }

  -- The rejects of a cancel, which differ in the order id, the reason and the text.
  unfoldable pub cancel_rejected :
      Input (OrderCancelRequest F) → Str → CancelRejectReason → Str → OrderCancelReject
  cancel_rejected i order_id reason text = record {
    order_id = order_id;
    orig_cl_ord_id = i.message.cl_ord_id;
    ord_status = OrderStatus.rejected;
    cxl_rej_response_to = CancelRejectResponseTo.cancel_request;
    cxl_rej_reason = some reason;
    text = some text;
  }

  unfoldable pub cancel_refused :
      Input (OrderCancelRequest F) → Str → CancelRejectReason → Str → Market F → Market F
  unfolding append cancel_rejected
  cancel_refused i order_id reason text m =
      append i (order_cancel_reject (cancel_rejected i order_id reason text)) m

module _ {F : Type 0} ⦃fl : Float F⦄ where
  -- `verifyOrderState` after `getOrder`.
  unfoldable pub verify_side :
      Input (OrderCancelRequest F) → Market F → Order F → Market F × Option (Order F)
  unfolding cancel_refused
  verify_side i m o =
      if not (side_value o.side == side_value i.message.side)
      then (
        cancel_refused i i.message.orig_cl_ord_id CancelRejectReason.unknown_order_cancel
            (codes "Side doesn't exactly match") m,
        none,
      )
      else (m, some o)

  -- `verifyOrderState` after `lockReadOrder`.
  unfoldable pub verify_known :
      Input (OrderCancelRequest F) → Market F → Outcome (Market F × Option (Order F))
  unfolding cancel_refused verify_side has_on get_order and_then
  verify_known i m =
      if not (has_on m.ob i.message.orig_cl_ord_id i.message.side)
      then returned (
        cancel_refused i (codes "NONE") CancelRejectReason.unknown_order_cancel
            (codes "Unknow order Id on this side") m,
        none,
      )
      else and_then (get_order m.ob i.message.orig_cl_ord_id) (λ o. returned (verify_side i m o))

  -- `verifyOrderState`: `lockReadOrder` throws on a side that it does not know.
  unfoldable pub verify_order_state :
      Input (OrderCancelRequest F) → Market F → Outcome (Market F × Option (Order F))
  unfolding verify_known direction
  verify_order_state i m = elim (direction i.message.side) [
    | buying ↦ verify_known i m
    | selling ↦ verify_known i m
    | unsupported ↦ thrown (codes "Side not supported, for lockReadOrder")
  ]

  unfoldable pub pending_cancel :
      Input (OrderCancelRequest F) → Market F → Order F → ExecutionReport F
  pending_cancel i m o = record {
    order_id = i.message.orig_cl_ord_id;
    cl_ord_id = some i.message.cl_ord_id;
    exec_id = i.execution_id;
    exec_trans_type = TransactionType.cancel;
    exec_type = OrderStatus.pending_cancel;
    ord_status = o.status;
    ord_rej_reason = none;
    symbol = m.ob.name;
    side = none;
    order_qty = none;
    ord_type = none;
    price = none;
    leaves_qty = o.remain_qty;
    last_shares = none;
    last_px = none;
    cum_qty = fl.sub o.original_qty o.remain_qty;
    avg_px = o.avg_price;
    text = none;
  }

  -- Whether the internal queue is empty and the ticket the first.
  unfoldable pub next_up : List (Input (OrderCancelRequest F)) → Str → Str → Bool
  next_up [] ticket id = str_eq ticket id
  next_up (c ∷ cs) ticket id = false

  unfoldable pub push_cancel : Input (OrderCancelRequest F) → Market F → Market F
  push_cancel i m = record m { cancels = m.cancels ++ i ∷ [] }

  -- `onInput` after the checks. `front` is read for a log line first.
  unfoldable pub acknowledge :
      Input (OrderCancelRequest F) → Order F → Option Str → Market F → Outcome (Market F)
  unfolding append pending_cancel next_up push_cancel
  acknowledge i o none m = undefined
  acknowledge i o (some ticket) m = returned (
      push_cancel i (
        if not (next_up m.cancels ticket i.execution_id)
        then append i (execution_report (pending_cancel i m o)) m
        else m))

  unfoldable pub verified :
      Input (OrderCancelRequest F) → Market F → Option (Order F) → Outcome (Market F)
  unfolding acknowledge finish_ticket front
  verified i m none = returned (finish_ticket i.execution_id m)
  verified i m (some o) = acknowledge i o (front m.mutex) m

  -- `onInput`
  unfoldable pub cancel_on_input : Input (OrderCancelRequest F) → Market F → Outcome (Market F)
  unfolding append quantity_missing finish_ticket verify_order_state verified and_then
  cancel_on_input i m = elim i.message.order_qty [
    | none ↦
        returned (append i (business_reject (quantity_missing i)) (finish_ticket i.execution_id m))
    | some q ↦ and_then (verify_order_state i m) (λ r. verified i r.0 r.1)
  ]

  unfoldable pub canceled : Input (OrderCancelRequest F) → Market F → Order F → ExecutionReport F
  canceled i m o = record {
    order_id = i.message.orig_cl_ord_id;
    cl_ord_id = some i.message.cl_ord_id;
    exec_id = i.execution_id;
    exec_trans_type = TransactionType.cancel;
    exec_type = OrderStatus.canceled;
    ord_status = o.status;
    ord_rej_reason = none;
    symbol = m.ob.name;
    side = some i.message.side;
    order_qty = none;
    ord_type = none;
    price = none;
    leaves_qty = fl.zero;
    last_shares = none;
    last_px = none;
    cum_qty = fl.sub o.original_qty o.remain_qty;
    avg_px = o.avg_price;
    text = none;
  }

  unfoldable pub too_late : Input (OrderCancelRequest F) → Str → Market F → Outcome (Market F)
  unfolding unlock_market cancel_refused and_then
  too_late i text m = and_then (unlock_market m) (λ m'.
      returned
        (cancel_refused i i.message.orig_cl_ord_id CancelRejectReason.too_late_cancel text m'))

module _ {F : Type 0} ⦃fl : Float F⦄ ⦃fr : Freed F⦄ where
  unfoldable pub remove : Input (OrderCancelRequest F) → Order F → Market F → Outcome (Market F)
  unfolding cancel unlock_market append canceled and_then
  remove i o m = and_then (cancel m.ob i.message.orig_cl_ord_id i.message.side) (λ ob.
      and_then (unlock_market (record m { ob = ob }))
        (λ m'. returned (append i (execution_report (canceled i m' o)) m')))

  -- The worker's work on one request, from the moment it has the lock: `verifyOrderStateWithLock` reads the
  -- quantity first, and `value` throws on an empty optional.
  unfoldable pub cancel_work : Input (OrderCancelRequest F) → Market F → Outcome (Market F)
  unfolding too_late remove has_on get_order and_then
  cancel_work i m = elim i.message.order_qty [
    | none ↦ thrown (codes "bad optional access")
    | some qty ↦
        if not (has_on m.ob i.message.orig_cl_ord_id i.message.side)
        then too_late i (codes "Order already processed") m
        else and_then (get_order m.ob i.message.orig_cl_ord_id) (λ o.
          if not (fl.eq o.remain_qty qty)
          then too_late i (codes "Order has invalid quantity") m
          else remove i o m)
  ]
