-- ===== src/Market/Tests.antt =====
-- A small market: runs of the units, and each theorem at a concrete input.
use fix4_2_protocol.Base.{
  str_eq, inl, ℕ, Str, codes, ◌≡◌, refl, none, some, [], ◌∷◌, ◌++◌, true, false,
}
use fix4_2_protocol.Core.Enum.{side_value, Side, OrderType, HandleInstance}
use fix4_2_protocol.Core.Float.{naturals, naturals-IsLinear}
use fix4_2_protocol.Message.Types.{Header, NewOrderSingle, OrderCancelRequest}
use fix4_2_protocol.OrderBook.{remembered, remembered-Unchanged, Outcome, returned}
use fix4_2_protocol.OrderBook.Api.{create}
use fix4_2_protocol.OrderBook.Store.{find, deref}
use fix4_2_protocol.Thread.QueueMutex.{QueueMutex, lock}
use fix4_2_protocol.Market.{Market, Input, Client}
use fix4_2_protocol.Market.NewOrder.{side_supported, is_limit, new_order_on_input, new_order_work}
use fix4_2_protocol.Market.Cancel.{cancel_on_input}
use fix4_2_protocol.Market.Checks.{IsSafe}
use fix4_2_protocol.Market.Fairness.{reached-IsSafe, RunTakenBack, reached_in_order}
use fix4_2_protocol.Market.Stuck.{Waits, new_order_on_input-Waits}
use fix4_2_protocol.Market.Safety.{new_order_work-returned}
use fix4_2_protocol.Market.Tickets.{Less}
use fix4_2_protocol.Market.Step.{
  Step, Run, rest, step, receive_new_order, check_new_order, work_new_order, receive_cancel,
  check_cancel, redirect_new_order, redirect_cancel,
}

abbrev pub a_header : ℕ → Header
a_header kind = record {
  begin_string = codes "FIX.4.2";
  body_length = 0;
  msg_type = kind;
  sender_comp_id = codes "alice";
  target_comp_id = codes "exchange";
  msg_seq_num = 2;
  sending_time = 0;
}

abbrev pub a_client : Client
a_client = record { socket = 7; user_id = codes "alice" }

abbrev pub sell_five : Input (NewOrderSingle ℕ)
sell_five = record {
  client = a_client;
  receive_time = 0;
  execution_id = codes "x1";
  header = a_header b'D';
  message = record {
    cl_ord_id = codes "s1";
    handl_inst = HandleInstance.auto_private;
    symbol = codes "ACME";
    side = Side.sell;
    order_qty = some 5;
    ord_type = OrderType.limit;
    price = some 9;
  };
}

abbrev pub cancel_it : Input (OrderCancelRequest ℕ)
cancel_it = record {
  client = a_client;
  receive_time = 1;
  execution_id = codes "x2";
  header = a_header b'F';
  message = record {
    orig_cl_ord_id = codes "s1";
    order_id = none;
    cl_ord_id = codes "c1";
    symbol = codes "ACME";
    side = Side.sell;
    transact_time = 1;
    order_qty = some 5;
  };
}

abbrev pub market_0 : Market ℕ
market_0 = record {
  mutex = record { queue = []; locked = false };
  ob = create (codes "ACME");
  new_order_input = [];
  cancel_input = [];
  new_orders = [];
  cancels = [];
  tcp_output = [];
}

abbrev the_market : Outcome (Market ℕ) → Market ℕ
the_market (returned m) = m
the_market _ = market_0

abbrev took : Market ℕ → QueueMutex Str
took m = record { queue = m.mutex.queue; locked = true }

-- The order, its check, and its work; the cancel request, and its check.
abbrev pub market_1 : Market ℕ
market_1 = redirect_new_order sell_five market_0

abbrev pub market_2 : Market ℕ
market_2 = new_order_on_input sell_five (record market_1 { new_order_input = [] })

abbrev market_3 : Market ℕ
market_3 =
    the_market
      (new_order_work sell_five (record market_2 { new_orders = []; mutex = took market_2 }))

abbrev market_4 : Market ℕ
market_4 = redirect_cancel cancel_it market_3

abbrev market_5 : Market ℕ
market_5 = the_market (cancel_on_input cancel_it (record market_4 { cancel_input = [] }))

pub market_0-IsSafe : IsSafe market_0
unfolding create find deref
market_0-IsSafe = record {
  book = record {
    bids = record { agree = λ k. refl; distinct = tt; apart = tt; fresh = λ a h. refl };
    asks = record { agree = λ k. refl; distinct = tt; apart = tt; fresh = λ a h. refl };
    bid_order = tt;
    ask_order = tt;
    one_side = λ k. inl refl;
  };
  orders = tt;
  requests = tt;
}

order_received : Step market_0 (codes "x1" ∷ []) [] market_1
order_received = receive_new_order sell_five

pub order_checked : Step market_1 [] [] market_2
unfolding redirect_new_order
order_checked = check_new_order sell_five refl

order_placed : Step market_2 [] (codes "x1" ∷ []) market_3
unfolding redirect_new_order new_order_on_input lock new_order_work create str_eq
order_placed =
    work_new_order {m = market_2} sell_five {rest = []} {q = took market_2} refl refl refl

to_market_3 : Run market_0 (codes "x1" ∷ []) (codes "x1" ∷ []) market_3
to_market_3 = step order_received (step order_checked (step order_placed rest))

reached_in_order_example :
    Less
      (RunTakenBack to_market_3)
      ((codes "x1" ∷ []) ++ market_3.mutex.queue)
      (market_0.mutex.queue ++ codes "x1" ∷ [])
reached_in_order_example = reached_in_order to_market_3

market_2-IsSafe : IsSafe market_2
market_2-IsSafe =
    reached-IsSafe naturals-IsLinear remembered-Unchanged market_0-IsSafe
      (step order_received (step order_checked rest))

new_order_work-returned_example :
    (m' : Market ℕ) × (new_order_work sell_five
        (record market_2 { new_orders = []; mutex = took market_2 })
      ≡ returned m')
    × IsSafe m'
unfolding redirect_new_order new_order_on_input lock str_eq
new_order_work-returned_example =
    new_order_work-returned naturals-IsLinear remembered-Unchanged market_2 sell_five []
      (took market_2) market_2-IsSafe refl refl

request_received : Step market_3 (codes "x2" ∷ []) [] market_4
request_received = receive_cancel cancel_it

request_checked : Step market_4 [] [] market_5
unfolding redirect_new_order redirect_cancel new_order_on_input cancel_on_input lock new_order_work
    str_eq side_value create
request_checked = check_cancel {m = market_4} {m' = market_5} cancel_it {rest = []} refl refl

reached-IsSafe_example : IsSafe market_5
reached-IsSafe_example = reached-IsSafe naturals-IsLinear remembered-Unchanged market_0-IsSafe (
    step order_received
      (step order_checked (step order_placed (step request_received (step request_checked rest)))))

-- The same order, at the market price, with its ticket.
abbrev market_order : Input (NewOrderSingle ℕ)
market_order = record sell_five {
  execution_id = codes "x0";
  message = record {
    cl_ord_id = codes "s0";
    handl_inst = HandleInstance.auto_private;
    symbol = codes "ACME";
    side = Side.sell;
    order_qty = some 5;
    ord_type = OrderType.market;
    price = some 9;
  };
}

abbrev market_6 : Market ℕ
market_6 = record market_0 { mutex = record { queue = codes "x0" ∷ []; locked = false } }

abbrev market_7 : Market ℕ
market_7 = redirect_new_order sell_five (new_order_on_input market_order market_6)

new_order_on_input-Waits_example : Waits market_order market_7
unfolding str_eq side_supported is_limit
new_order_on_input-Waits_example =
    new_order_on_input-Waits market_order market_6 market_7 [] (codes "x1" ∷ []) [] (λ e. cc)
      (λ e. cc) refl refl refl refl tt (step (receive_new_order sell_five) rest) (refl, tt)
