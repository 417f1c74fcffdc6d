-- ===== src/Market.antt =====
-- server/include/Server/ProcessUnit/data/Global.hpp and Context.hpp, server/src/ProcessUnit/MarketContainer.cpp:
-- one market. The router gives an input a ticket and puts it into the input queue of its unit; the
-- unit checks it and puts it into its internal queue; the unit's worker takes it from there, waits for its ticket,
-- and works on the order book.
pub mod NewOrder
pub mod Cancel
pub mod Step
pub mod Router
pub mod Tickets
pub mod Release
pub mod Placing
pub mod Removing
pub mod Checks
pub mod Safety
pub mod Fairness
pub mod Stuck
pub mod Report
mod Tests
use fix4_2_protocol.Base.{ℕ, Str, Option, none, some, List, [], ◌∷◌, ◌++◌, str_eq}
use fix4_2_protocol.Core.Float.{Float}
use fix4_2_protocol.Message.Types.{
  Header, BusinessReject, OrderCancelReject, ExecutionReport, NewOrderSingle, OrderCancelRequest,
}
unfoldable pub use fix4_2_protocol.OrderBook.Store.{and_then}
use fix4_2_protocol.OrderBook.{OrderBook, Outcome, returned, thrown, undefined}
use fix4_2_protocol.Thread.QueueMutex.{QueueMutex, unlock, finish}

-- What `ClientStore::Client` points at, as far as a market reads it.
pub record Client : Type 0 where
  pub socket : ℕ
  pub user_id : Str

-- `Context<data::ParsedMessage<M>>`
pub record Input (M : Type 0) : Type 0 where
  pub client : Client
  pub receive_time : ℕ
  pub execution_id : Str
  pub header : Header
  pub message : M

module _ (F : Type 0) where
  pub data Reply : Type 0 where
    business_reject : BusinessReject → Reply
    execution_report : ExecutionReport F → Reply
    order_cancel_reject : OrderCancelReject → Reply

  -- `Context<data::StringOutput>`, before `to_string`.
  pub record Output : Type 0 where
    pub client : Client
    pub receive_time : ℕ
    pub reply : Reply

  -- `MarketContainer` with the units' queues: what waits for `onInput`, and what waits for the workers.
  pub record Market : Type 0 where
    pub mutex : QueueMutex Str
    pub ob : OrderBook F
    pub new_order_input : List (Input (NewOrderSingle F))
    pub cancel_input : List (Input (OrderCancelRequest F))
    pub new_orders : List (Input (NewOrderSingle F))
    pub cancels : List (Input (OrderCancelRequest F))
    pub tcp_output : List Output

module _ {F : Type 0} where
  -- `m_tcp_output.append`
  unfoldable pub append : {M : Type 0} → Input M → Reply F → Market F → Market F
  append i reply m = record m {
    tcp_output =
        m.tcp_output
        ++ record { client = i.client; receive_time = i.receive_time; reply = reply } ∷ [];
  }

  -- `m_mutex.finish`
  unfoldable pub finish_ticket : Str → Market F → Market F
  unfolding finish
  finish_ticket id m = record m { mutex = (finish str_eq m.mutex id).0 }

  unfoldable pub released : Market F → Option (QueueMutex Str) → Outcome (Market F)
  released m none = undefined
  released m (some q) = returned (record m { mutex = q })

  -- `m_mutex.unlock`
  unfoldable pub unlock_market : Market F → Outcome (Market F)
  unfolding unlock released
  unlock_market m = released m (unlock m.mutex)
