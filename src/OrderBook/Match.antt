-- ===== src/OrderBook/Match.antt =====
-- server/include/Server/OrderBook.inl and server/src/OrderBook.cpp: how an incoming order is filled on
-- the book of the other side. `fillOnBook` erases a list node and then reads the order id through a
-- reference into it: the model reads what `Freed` gives for it.
pub mod Run
pub mod Priority
pub mod Cleared
pub mod Quantity
pub mod Conservation
use fix4_2_protocol.Base.{Str, str_eq, Bool, true, false, not, if◌then◌else◌, List, [], ◌∷◌, ◌++◌}
use fix4_2_protocol.Core.Enum.{Side, OrderStatus}
use fix4_2_protocol.Core.Float.{Float, min}
use fix4_2_protocol.Core.Order.{Order}
use fix4_2_protocol.OrderBook.{Node, OrderIdMap, Level, Book, Event, Ticks, OrderInfo, Freed}
use fix4_2_protocol.OrderBook.Store.{remove_from_id_map}
use fix4_2_protocol.OrderBook.Tick.{compute_tick_at, allow_tick}

pub data FillStatus : Type 0 where
  filled partialy_filled skipped : FillStatus

-- How the loops over the book end: the incoming order is filled, its side is blocked by the tick, or the
-- book has no further level within the limit.
pub data Ending : Type 0 where
  complete blocked exhausted : Ending

-- What `fillOrder` leaves: the incoming order's event, the resting order and the events pushed.
pub record Filling (F : Type 0) : Type 0 where
  pub status : FillStatus
  pub main : Event F
  pub order : Order F
  pub pushed : List (Event F)

-- What the loops of `fillOnBook` change, but for the book.
pub record Progress (F : Type 0) : Type 0 where
  pub main : Event F
  pub ids : OrderIdMap F
  pub ticks : Ticks F
  pub output : List (Event F)

-- The event of the resting order: a copy of it, taken before its status changes.
fill_event : {F : Type 0} → OrderStatus → F → F → Order F → Event F
fill_event s price fill o = record {
  exec_status = s;
  last_price = price;
  last_qty = fill;
  order = o;
}

module _ {F : Type 0} ⦃fl : Float F⦄ where
  -- `(cum_qty * avg + fill_qty * price) / cum_total` for an order with `fill` more filled at `price`.
  unfoldable pub average : Order F → F → F → F
  average o fill price =
      let cum_qty = fl.sub o.original_qty o.remain_qty in
      fl.div (fl.add (fl.mul cum_qty o.avg_price) (fl.mul fill price)) (fl.add cum_qty fill)

  -- An order with `fill` more filled at `price`; its status is left alone.
  unfoldable pub take : Order F → F → F → Order F
  unfolding average
  take o fill price = record o {
    remain_qty = fl.sub o.remain_qty fill;
    avg_price = average o fill price;
  }

  unfoldable pub fill_order : Event F → F → Order F → Filling F
  unfolding take fill_event
  fill_order main price o =
      let fill = min o.remain_qty main.order.remain_qty in
      let main' = record main {
        last_price = price;
        last_qty = fill;
        order = take main.order fill price;
      } in
      let o' = take o fill price in
      if str_eq o.user_id main.order.user_id
      then record { status = skipped; main = main; order = o; pushed = [] }
      else if fl.eq o'.remain_qty fl.zero
      then record {
        status = filled;
        main = main';
        order = record o' { status = OrderStatus.filled };
        pushed = fill_event OrderStatus.filled price fill o' ∷ [];
      }
      else record {
        status = partialy_filled;
        main = main';
        order = record o' { status = OrderStatus.partially_filled };
        pushed = fill_event OrderStatus.partially_filled price fill o' ∷ [];
      }

  -- The map of ids after the `switch` on the status.
  unfoldable pub ids_after : FillStatus → OrderIdMap F → Str → OrderIdMap F
  unfolding remove_from_id_map
  ids_after filled ids id = (remove_from_id_map ids id).0
  ids_after _ ids id = ids

  -- The node stays in the list unless its order is filled.
  unfoldable pub kept : FillStatus → Node F → Order F → List (Node F)
  kept filled n o = []
  kept _ n o = record n { order = o } ∷ []

module _ {F : Type 0} ⦃fl : Float F⦄ ⦃fr : Freed F⦄ where
  -- What a trade with the order of a node leaves.
  unfoldable pub traded : F → Node F → Progress F → Progress F
  unfolding fill_order ids_after compute_tick_at
  traded price n s =
      let r = fill_order s.main price n.order in
      record {
        main = r.main;
        ids = ids_after r.status s.ids (fr.id_read n.order.order_id);
        ticks = compute_tick_at price s.ticks;
        output = s.output ++ r.pushed;
      }

  -- The nodes passed before the rest of a list.
  unfoldable pub in_front :
      List (Node F) → Progress F × List (Node F) × Bool → Progress F × List (Node F) × Bool
  in_front head (s, ns, done) = (s, head ++ ns, done)

  -- The loop over the orders of one price: what it leaves of the list, and whether it ended the matching.
  unfoldable pub fill_level : F → List (Node F) → Progress F → Progress F × List (Node F) × Bool
  unfolding fill_order kept traded in_front
  fill_level price [] s = (s, [], false)
  fill_level price (n ∷ ns) s =
      let r = fill_order s.main price n.order in
      let s' = traded price n s in
      let head = kept r.status n r.order in
      let skip = in_front (n ∷ []) (fill_level price ns s) in
      let next = in_front head (fill_level price ns s') in
      let stop : Progress F × List (Node F) × Bool =
        if fl.eq s'.main.order.remain_qty fl.zero then (s', head ++ ns, true) else next in
      elim r.status [ skipped ↦ skip | filled ↦ stop | partialy_filled ↦ stop ]

  unfoldable pub below : Level F → Progress F × Book F × Ending → Progress F × Book F × Ending
  below l (s, b, e) = (s, l ∷ b, e)

  -- The loop over the prices, from the best, for an incoming order of the given side and limit.
  unfoldable pub fill_book :
      (F → F → Bool) → F → Side → Book F → Progress F → Progress F × Book F × Ending
  unfolding fill_level allow_tick below
  fill_book cmp limit side [] s = (s, [], exhausted)
  fill_book cmp limit side (l ∷ b) s =
      let (ticks, allowed) = allow_tick side s.ticks in
      let s' : Progress F = record s { ticks = ticks } in
      let (t, ns, done) = fill_level l.price l.orders s' in
      let l' : Level F = record l { orders = ns } in
      let rest = below l' (fill_book cmp limit side b t) in
      let filling : Progress F × Book F × Ending = if done then (t, l' ∷ b, complete) else rest in
      if not (cmp l.price limit)
      then (s, l ∷ b, exhausted)
      else if not allowed
      then (s', l ∷ b, blocked)
      else filling

  unfoldable pub start : OrderInfo F → OrderIdMap F → Ticks F → List (Event F) → Progress F
  start info ids ticks output = record {
    main = record {
      exec_status = OrderStatus.new_order;
      last_price = fl.zero;
      last_qty = fl.zero;
      order = info.order;
    };
    ids = ids;
    ticks = ticks;
    output = output;
  }

  unfoldable pub push_main : OrderStatus → Progress F → Progress F
  push_main status s = record s { output = s.output ++ record s.main { exec_status = status } ∷ [] }

  -- What `fillOnBook` pushes and returns when the loops have ended.
  unfoldable pub settle : OrderInfo F → Ending → Progress F → Progress F × F × F
  unfolding push_main
  settle info complete s = (push_main OrderStatus.filled s, fl.zero, fl.zero)
  settle info blocked s = (s, s.main.order.remain_qty, s.main.order.avg_price)
  settle info exhausted s = (
    (if fl.eq s.main.order.remain_qty info.order.original_qty
        then s
        else push_main OrderStatus.partially_filled s),
    s.main.order.remain_qty,
    s.main.order.avg_price,
  )

  -- `fillOnBook`: the state, the book, and the remaining quantity and average price that it returns.
  unfoldable pub fill_on_book :
      (F → F → Bool)
      → Book F
      → OrderIdMap F
      → Ticks F
      → List (Event F)
      → OrderInfo F
      → Progress F × Book F × F × F
  unfolding fill_book start settle
  fill_on_book cmp book ids ticks output info =
      let (s, b, e) = fill_book cmp info.price info.order.side book (start info ids ticks output) in
      let (t, qty, price) = settle info e s in (t, b, qty, price)
