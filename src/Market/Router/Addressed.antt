-- ===== src/Market/Router/Addressed.antt =====
-- What waits in the queues of a market is for the symbol of the market, step by step.
use fix4_2_protocol.Base.{
  Str, ◌≡◌, ◌⊎◌, inl, inr, sym, subst, List, [], ◌∷◌, ◌++◌, All, All-append, arith,
}
use fix4_2_protocol.Core.Float.{Float}
use fix4_2_protocol.Message.Types.{NewOrderSingle, OrderCancelRequest}
use fix4_2_protocol.OrderBook.{Freed, returned}
use fix4_2_protocol.Market.{Market, Input, append, finish_ticket, unlock_market, released, and_then}
use fix4_2_protocol.Market.NewOrder.{
  missing, check_type, check_side, not_supported_side, not_supported_order_type, new_order_on_input,
  order_info, place, refuse, accept, new_order_work,
}
use fix4_2_protocol.Market.Cancel.{
  cancel_on_input, verify_order_state, verify_known, verify_side, verified, acknowledge,
  push_cancel, cancel_refused, cancel_work, too_late, remove,
}
use fix4_2_protocol.Market.Step.{
  Step, receive_new_order, receive_cancel, check_new_order, check_cancel, work_new_order,
  work_cancel,
}

more_addressed :
    {M : Type 0} (P : Input M → Type 0) (i : Input M) (xs ys : List (Input M))
    → (ys ≡ xs) ⊎ (ys ≡ xs ++ i ∷ [])
    → P i
    → All P xs
    → All P ys
more_addressed P i xs ys (inl e) p h = subst (All P) (sym e) h
more_addressed P i xs ys (inr e) p h = subst (All P) (sym e) (All-append P xs (i ∷ []) h (p, tt))

module _ {F : Type 0} where
  abbrev pub OrderFor : Str → Input (NewOrderSingle F) → Type 0
  OrderFor k i = i.message.symbol ≡ k

  abbrev pub CancelFor : Str → Input (OrderCancelRequest F) → Type 0
  CancelFor k i = i.message.symbol ≡ k

  -- Every input in the queues of a market is for the symbol.
  pub record IsAddressed (k : Str) (m : Market F) : Type 0 where
    pub order_input : All (OrderFor k) m.new_order_input
    pub cancel_input : All (CancelFor k) m.cancel_input
    pub orders : All (OrderFor k) m.new_orders
    pub cancels : All (CancelFor k) m.cancels

  check_order_queues :
      (i : Input (NewOrderSingle F)) (m : Market F)
      → let m' = new_order_on_input i m in
        (m'.new_order_input ≡ m.new_order_input)
        × (m'.cancel_input ≡ m.cancel_input)
        × ((m'.new_orders ≡ m.new_orders) ⊎ (m'.new_orders ≡ m.new_orders ++ i ∷ []))
        × (m'.cancels ≡ m.cancels)
  unfolding new_order_on_input missing check_type check_side not_supported_side
      not_supported_order_type finish_ticket append
  check_order_queues i m = (ground arith, ground arith, ground arith, ground arith)

module _ {F : Type 0} ⦃fl : Float F⦄ where
  check_cancel_queues :
      (i : Input (OrderCancelRequest F)) (m m' : Market F)
      → cancel_on_input i m ≡ returned m'
      → (m'.new_order_input ≡ m.new_order_input)
        × (m'.cancel_input ≡ m.cancel_input)
        × (m'.new_orders ≡ m.new_orders)
        × ((m'.cancels ≡ m.cancels) ⊎ (m'.cancels ≡ m.cancels ++ i ∷ []))
  unfolding cancel_on_input verify_order_state verify_known verify_side verified acknowledge
      push_cancel cancel_refused finish_ticket append and_then
  check_cancel_queues i m m' h = (ground arith, ground arith, ground arith, ground arith)

module _ {F : Type 0} ⦃fl : Float F⦄ ⦃fr : Freed F⦄ where
  -- The units' queues after a worker's round.
  abbrev SameQueues : Market F → Market F → Type 0
  SameQueues m m' =
      (m'.new_order_input ≡ m.new_order_input)
      × (m'.cancel_input ≡ m.cancel_input)
      × (m'.new_orders ≡ m.new_orders)
      × (m'.cancels ≡ m.cancels)

  order_worked_queues :
      (i : Input (NewOrderSingle F)) (m m' : Market F)
      → new_order_work i m ≡ returned m'
      → SameQueues m m'
  unfolding new_order_work order_info place refuse accept unlock_market released append and_then
  order_worked_queues i m m' h = (ground arith, ground arith, ground arith, ground arith)

  cancel_worked_queues :
      (i : Input (OrderCancelRequest F)) (m m' : Market F)
      → cancel_work i m ≡ returned m'
      → SameQueues m m'
  unfolding cancel_work too_late remove unlock_market released cancel_refused append and_then
  cancel_worked_queues i m m' h = (ground arith, ground arith, ground arith, ground arith)

  -- A step that gives no ticket.
  pub moved-IsAddressed :
      (k : Str) {m m' : Market F} {g s : List Str}
      → g ≡ []
      → Step m g s m'
      → IsAddressed k m
      → IsAddressed k m'
  moved-IsAddressed k z (receive_new_order i) v = cc
  moved-IsAddressed k z (receive_cancel i) v = cc
  moved-IsAddressed k {m} z (check_new_order i {rest = r} e) v =
      let (here, others) : OrderFor k i × All (OrderFor k) r = rw e at v.order_input in
      let (a, b, c, d) = check_order_queues i (record m { new_order_input = r }) in
      record {
        order_input = rw a others;
        cancel_input = rw b v.cancel_input;
        orders = more_addressed (OrderFor k) i m.new_orders _ c here v.orders;
        cancels = rw d v.cancels;
      }
  moved-IsAddressed k {m} {m'} z (check_cancel i {rest = r} e run) v =
      let (here, others) : CancelFor k i × All (CancelFor k) r = rw e at v.cancel_input in
      let (a, b, c, d) = check_cancel_queues i (record m { cancel_input = r }) m' run in
      record {
        order_input = rw a v.order_input;
        cancel_input = rw b others;
        orders = rw c v.orders;
        cancels = more_addressed (CancelFor k) i m.cancels m'.cancels d here v.cancels;
      }
  moved-IsAddressed k {m} {m'} z (work_new_order i {rest = r} {q = q} e h run) v =
      let (here, others) : OrderFor k i × All (OrderFor k) r = rw e at v.orders in
      let (a, b, c, d) = order_worked_queues i (record m { new_orders = r; mutex = q }) m' run in
      record {
        order_input = rw a v.order_input;
        cancel_input = rw b v.cancel_input;
        orders = rw c others;
        cancels = rw d v.cancels;
      }
  moved-IsAddressed k {m} {m'} z (work_cancel i {rest = r} {q = q} e h run) v =
      let (here, others) : CancelFor k i × All (CancelFor k) r = rw e at v.cancels in
      let (a, b, c, d) = cancel_worked_queues i (record m { cancels = r; mutex = q }) m' run in
      record {
        order_input = rw a v.order_input;
        cancel_input = rw b v.cancel_input;
        orders = rw c v.orders;
        cancels = rw d others;
      }
