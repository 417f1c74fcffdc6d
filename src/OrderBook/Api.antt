-- ===== src/OrderBook/Api.antt =====
-- server/src/OrderBook.cpp: the public members of the order book.
use fix4_2_protocol.Base.{
  Str, codes, suc, Bool, false, not, ◌||◌, if◌then◌else◌, Option, none, some, [],
}
use fix4_2_protocol.Core.Enum.{Side, OrderStatus}
use fix4_2_protocol.Core.Float.{Float, less, greater, less_equal, greater_equal}
use fix4_2_protocol.Core.Order.{Order}
use fix4_2_protocol.OrderBook.{
  Outcome, returned, thrown, undefined, OrderBook, OrderInfo, OrderIdInfo, Book, Freed,
  zero_plus_tick,
}
use fix4_2_protocol.OrderBook.Match.{fill_on_book}
use fix4_2_protocol.OrderBook.Store.{
  on_return, and_then, find, contains, deref, add_to_book, cancel_order, remove_from_id_map,
}
use fix4_2_protocol.OrderBook.Tick.{allow_tick}

-- The two kinds of order that the book takes.
pub data Direction : Type 0 where
  buying selling unsupported : Direction

unfoldable pub direction : Side → Direction
direction Side.buy = buying
direction Side.buy_minus = buying
direction Side.sell = selling
direction Side.sell_plus = selling
direction _ = unsupported

module _ {F : Type 0} ⦃fl : Float F⦄ where
  unfoldable pub create : Str → OrderBook F
  create name = record {
    name = name;
    ticks = record { lastprice = fl.zero; lastprice_diff = fl.zero; tick = zero_plus_tick };
    event_output = [];
    bid_id = [];
    ask_id = [];
    ask_book = [];
    bid_book = [];
    next_addr = 0;
  }

  -- `allowTick`
  unfoldable pub allow : OrderBook F → Side → OrderBook F × Bool
  unfolding allow_tick
  allow b side = let (t, ok) = allow_tick side b.ticks in (record b { ticks = t }, ok)

  -- `has(OrderId)`
  unfoldable pub has : OrderBook F → Str → Bool
  unfolding contains
  has b id = contains id b.ask_id || contains id b.bid_id

  -- `has(OrderId, Side)`
  unfoldable pub has_on : OrderBook F → Str → Side → Bool
  unfolding contains direction
  has_on b id side = elim (direction side) [
    | buying ↦ contains id b.bid_id
    | selling ↦ contains id b.ask_id
    | unsupported ↦ false
  ]

  unfoldable pub read_order : Option (Order F) → Outcome (Order F)
  read_order none = undefined
  read_order (some o) = returned o

  unfoldable pub get_ask : Book F → Option (OrderIdInfo F) → Outcome (Order F)
  unfolding read_order deref
  get_ask book none = thrown (codes "unordered_map::at")
  get_ask book (some i) = read_order (deref i.node book)

  unfoldable pub get_bid : OrderBook F → Str → Option (OrderIdInfo F) → Outcome (Order F)
  unfolding get_ask find
  get_bid b id (some i) = read_order (deref i.node b.bid_book)
  get_bid b id none = get_ask b.ask_book (find id b.ask_id)

  -- `getOrder`
  unfoldable pub get_order : OrderBook F → Str → Outcome (Order F)
  unfolding get_bid
  get_order b id = get_bid b id (find id b.bid_id)

  -- The order that `add` puts into the book for what could not be filled.
  unfoldable pub resting : Order F → F → F → Order F
  resting o qty price = record {
    user_id = o.user_id;
    order_id = o.order_id;
    original_qty = o.original_qty;
    remain_qty = qty;
    avg_price = price;
    side = o.side;
    status =
        if fl.eq qty o.original_qty then OrderStatus.new_order else OrderStatus.partially_filled;
  }

module _ {F : Type 0} ⦃fl : Float F⦄ ⦃fr : Freed F⦄ where
  unfoldable pub add_buy : OrderBook F → OrderInfo F → OrderBook F
  unfolding fill_on_book add_to_book resting
  add_buy b info =
      let (s, asks, qty, price) =
        fill_on_book less_equal b.ask_book b.ask_id b.ticks b.event_output info in
      let b' : OrderBook F = record b {
        ticks = s.ticks;
        event_output = s.output;
        ask_id = s.ids;
        ask_book = asks;
      } in
      let (bids, ids) =
        add_to_book greater b.bid_book b.bid_id info.price (resting info.order qty price)
          b.next_addr in
      if not (fl.eq qty fl.zero)
      then record b' { bid_book = bids; bid_id = ids; next_addr = suc b.next_addr }
      else b'

  unfoldable pub add_sell : OrderBook F → OrderInfo F → OrderBook F
  unfolding fill_on_book add_to_book resting
  add_sell b info =
      let (s, bids, qty, price) =
        fill_on_book greater_equal b.bid_book b.bid_id b.ticks b.event_output info in
      let b' : OrderBook F = record b {
        ticks = s.ticks;
        event_output = s.output;
        bid_id = s.ids;
        bid_book = bids;
      } in
      let (asks, ids) =
        add_to_book less b.ask_book b.ask_id info.price (resting info.order qty price)
          b.next_addr in
      if not (fl.eq qty fl.zero)
      then record b' { ask_book = asks; ask_id = ids; next_addr = suc b.next_addr }
      else b'

  unfoldable pub add : OrderBook F → OrderInfo F → Outcome (OrderBook F)
  unfolding add_buy add_sell direction
  add b info = elim (direction info.order.side) [
    | buying ↦ returned (add_buy b info)
    | selling ↦ returned (add_sell b info)
    | unsupported ↦ thrown (codes "Side not supported, for add")
  ]

  unfoldable pub cancel_sell : OrderBook F → Str → Option (OrderIdInfo F) → Outcome (OrderBook F)
  unfolding on_return and_then remove_from_id_map cancel_order
  cancel_sell b id none = undefined
  cancel_sell b id (some info) =
      on_return (λ book. record b { ask_id = (remove_from_id_map b.ask_id id).0; ask_book = book })
        (and_then (fr.entry_read info) (cancel_order less b.ask_book))

  unfoldable pub cancel_buy : OrderBook F → Str → Option (OrderIdInfo F) → Outcome (OrderBook F)
  unfolding on_return and_then remove_from_id_map cancel_order
  cancel_buy b id none = undefined
  cancel_buy b id (some info) =
      on_return (λ book. record b { bid_id = (remove_from_id_map b.bid_id id).0; bid_book = book })
        (and_then (fr.entry_read info) (cancel_order greater b.bid_book))

  -- `cancel`: `getOrderIdInfo` ends with no return where the id is missing. The code keeps a reference to
  -- the entry, removes the entry, and reads on through the reference: the model reads what `Freed` gives for it.
  unfoldable pub cancel : OrderBook F → Str → Side → Outcome (OrderBook F)
  unfolding direction cancel_sell cancel_buy find
  cancel b id side = elim (direction side) [
    | buying ↦ cancel_buy b id (find id b.bid_id)
    | selling ↦ cancel_sell b id (find id b.ask_id)
    | unsupported ↦ thrown (codes "Side not supported, for getOrderIdInfo")
  ]
