-- ===== src/Market/Step.antt =====
-- server/include/Server/ProcessUnit/MarketRouter.inl and the loops of the units of
-- server/src/ProcessUnit/Market: the steps of a market. A worker's step goes from the lock to the release.
use fix4_2_protocol.Base.{Str, str_eq, some, List, [], ◌∷◌, ◌++◌, ◌≡◌}
use fix4_2_protocol.Core.Float.{Float}
use fix4_2_protocol.Message.Types.{NewOrderSingle, OrderCancelRequest}
use fix4_2_protocol.OrderBook.{Freed, returned}
use fix4_2_protocol.Thread.QueueMutex.{QueueMutex, allow, lock}
use fix4_2_protocol.Market.{Market, Input}
use fix4_2_protocol.Market.NewOrder.{new_order_on_input, new_order_work}
use fix4_2_protocol.Market.Cancel.{cancel_on_input, cancel_work}

module _ {F : Type 0} where
  -- `redirectToMarket` on a known symbol: the ticket, and then the input.
  unfoldable pub redirect_new_order : Input (NewOrderSingle F) → Market F → Market F
  unfolding allow
  redirect_new_order i m = record m {
    mutex = allow m.mutex i.execution_id;
    new_order_input = m.new_order_input ++ i ∷ [];
  }

  unfoldable pub redirect_cancel : Input (OrderCancelRequest F) → Market F → Market F
  unfolding allow
  redirect_cancel i m = record m {
    mutex = allow m.mutex i.execution_id;
    cancel_input = m.cancel_input ++ i ∷ [];
  }

module _ {F : Type 0} ⦃fl : Float F⦄ ⦃fr : Freed F⦄ where
  -- A step, the tickets that it gives, and the tickets that it serves.
  pub data Step : Market F → List Str → List Str → Market F → Type 0 where
    receive_new_order :
        {m : Market F} (i : Input (NewOrderSingle F))
        → Step m (i.execution_id ∷ []) [] (redirect_new_order i m)
    receive_cancel :
        {m : Market F} (i : Input (OrderCancelRequest F))
        → Step m (i.execution_id ∷ []) [] (redirect_cancel i m)
    check_new_order :
        {m : Market F} (i : Input (NewOrderSingle F)) {rest : List (Input (NewOrderSingle F))}
        → m.new_order_input ≡ i ∷ rest
        → Step m [] [] (new_order_on_input i (record m { new_order_input = rest }))
    check_cancel :
        {m m' : Market F} (i : Input (OrderCancelRequest F))
        {rest : List (Input (OrderCancelRequest F))}
        → m.cancel_input ≡ i ∷ rest
        → cancel_on_input i (record m { cancel_input = rest }) ≡ returned m'
        → Step m [] [] m'
    work_new_order :
        {m m' : Market F} (i : Input (NewOrderSingle F)) {rest : List (Input (NewOrderSingle F))}
        {q : QueueMutex Str}
        → m.new_orders ≡ i ∷ rest
        → lock str_eq m.mutex i.execution_id ≡ some q
        → new_order_work i (record m { new_orders = rest; mutex = q }) ≡ returned m'
        → Step m [] (i.execution_id ∷ []) m'
    work_cancel :
        {m m' : Market F} (i : Input (OrderCancelRequest F))
        {rest : List (Input (OrderCancelRequest F))} {q : QueueMutex Str}
        → m.cancels ≡ i ∷ rest
        → lock str_eq m.mutex i.execution_id ≡ some q
        → cancel_work i (record m { cancels = rest; mutex = q }) ≡ returned m'
        → Step m [] (i.execution_id ∷ []) m'

  -- Steps in a row, with all the tickets given and served.
  pub data Run : Market F → List Str → List Str → Market F → Type 0 where
    rest : {m : Market F} → Run m [] [] m
    step :
        {m n p : Market F} {g g' s s' : List Str}
        → Step m g s n
        → Run n g' s' p
        → Run m (g ++ g') (s ++ s') p
