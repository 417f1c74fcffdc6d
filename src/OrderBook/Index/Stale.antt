-- ===== src/OrderBook/Index/Stale.antt =====
-- `fillOnBook` reads the id of a filled order after its node is freed. Where that gives no id that the map has, the entry of
-- the order stays.
use fix4_2_protocol.Base.{
  ℕ, Str, Bool, true, false, ◌≡◌, ◌≢◌, ◌⊎◌, inl, inr, refl, ◌∙◌, subst, List, arith,
}
use fix4_2_protocol.Core.Enum.{Side}
use fix4_2_protocol.Core.Float.{Float, less, greater, less_equal, greater_equal}
use fix4_2_protocol.Core.Order.{Order}
use fix4_2_protocol.OrderBook.{
  OrderBook, OrderInfo, Node, Event, Ticks, Book, OrderIdMap, Freed, returned,
}
use fix4_2_protocol.OrderBook.Api.{has, add, add_buy, add_sell, resting}
use fix4_2_protocol.OrderBook.Match.{Progress, Ending, skipped, fill_on_book, start, traded}
use fix4_2_protocol.OrderBook.Match.Run.{
  LevelRun, BookRun, filling, end, skip, stop, next, break, block, finish, descend, book_run,
}
use fix4_2_protocol.OrderBook.Store.{
  find-assign, contains, contains-find, remove_from_id_map, add_to_book,
}
use fix4_2_protocol.OrderBook.Index.Run.{trade_cases}
use fix4_2_protocol.OrderBook.Index.Add.{settle_ids}

module _ {F : Type 0} ⦃fl : Float F⦄ ⦃fr : Freed F⦄ (ids : OrderIdMap F)
    (lost : (k : Str) → contains (fr.id_read k) ids ≡ false) where
  trade_stale :
      (price : F) (n : Node F) (s : Progress F)
      → (filling price n s).status ≢ skipped
      → s.ids ≡ ids
      → (traded price n s).ids ≡ ids
  unfolding remove_from_id_map
  trade_stale price n s h e = elim (trade_cases price n s h) [
    | inl (o, l, id, same) ↦ same ∙ e
    | inr (l, gone) ↦ gone ∙ rw (e, lost n.order.order_id) refl
  ]

  level_stale :
      {price : F} {ns ns' : List (Node F)} {s t : Progress F} {d : Bool}
      → LevelRun price ns s t ns' d
      → s.ids ≡ ids
      → t.ids ≡ ids
  level_stale end e = e
  level_stale (skip k r) e = level_stale r e
  level_stale {price} (stop {n = n} {s = s} g z) e = trade_stale price n s g e
  level_stale {price} (next {n = n} {s = s} g z r) e = level_stale r (trade_stale price n s g e)

  book_stale :
      {cmp : F → F → Bool} {limit : F} {side : Side} {b b' : Book F} {s t : Progress F} {e : Ending}
      → BookRun cmp limit side b s t b' e
      → s.ids ≡ ids
      → t.ids ≡ ids
  book_stale end e = e
  book_stale (break beyond) e = e
  book_stale (block within shut) e = e
  book_stale (finish within op r) e = level_stale r e
  book_stale (descend within op r q) e = book_stale q (level_stale r e)

  matched_stale :
      (cmp : F → F → Bool) (b : Book F) (ticks : Ticks F) (out : List (Event F))
      (info : OrderInfo F)
      → (fill_on_book cmp b ids ticks out info).0.ids ≡ ids
  unfolding fill_on_book start
  matched_stale cmp b ticks out info =
      settle_ids info _ _
      ∙ book_stale (book_run cmp info.price info.order.side b (start info ids ticks out)) refl

module _ {F : Type 0} ⦃fl : Float F⦄ ⦃fr : Freed F⦄ where
  -- An assignment keeps every key.
  assigned :
      (before : F → F → Bool) (k : Str) (book : Book F) (ids : OrderIdMap F) (p : F) (o : Order F)
      (a : ℕ)
      → contains k ids ≡ true
      → contains k (add_to_book before book ids p o a).1 ≡ true
  unfolding add_to_book
  assigned before k book ids p o a h = ground (
    arith,
    contains-find k ids,
    contains-find k (add_to_book before book ids p o a).1,
    find-assign k o.order_id (record { node = a; price = p }) ids,
  )

  add_buy_stale :
      (b : OrderBook F) (info : OrderInfo F) (k : Str)
      → ((j : Str) → contains (fr.id_read j) b.ask_id ≡ false)
      → has b k ≡ true
      → has (add_buy b info) k ≡ true
  unfolding has add_buy
  add_buy_stale b info k lost h =
      let r = fill_on_book less_equal b.ask_book b.ask_id b.ticks b.event_output info in
      let same = matched_stale b.ask_id lost less_equal b.ask_book b.ticks b.event_output info in
      let more =
        assigned greater k b.bid_book b.bid_id info.price (resting info.order r.2 r.3)
          b.next_addr in
      ground arith

  add_sell_stale :
      (b : OrderBook F) (info : OrderInfo F) (k : Str)
      → ((j : Str) → contains (fr.id_read j) b.bid_id ≡ false)
      → has b k ≡ true
      → has (add_sell b info) k ≡ true
  unfolding has add_sell
  add_sell_stale b info k lost h =
      let r = fill_on_book greater_equal b.bid_book b.bid_id b.ticks b.event_output info in
      let same = matched_stale b.bid_id lost greater_equal b.bid_book b.ticks b.event_output info in
      let more =
        assigned less k b.ask_book b.ask_id info.price (resting info.order r.2 r.3) b.next_addr in
      ground arith

  add_ways :
      (b b' : OrderBook F) (info : OrderInfo F)
      → add b info ≡ returned b'
      → (add_buy b info ≡ b') ⊎ (add_sell b info ≡ b')
  unfolding add
  add_ways b b' info e = ground arith

  -- Where the id of a freed order reads as no id that the book has, `add` leaves every id that the book had, those
  -- of the orders that it fills and takes from the book as well: `has` goes on to confirm them.
  pub add-has_stale :
      (b b' : OrderBook F) (info : OrderInfo F) (k : Str)
      → ((j : Str) → has b (fr.id_read j) ≡ false)
      → add b info ≡ returned b'
      → has b k ≡ true
      → has b' k ≡ true
  unfolding has
  add-has_stale b b' info k lost e h = elim (add_ways b b' info e) [
    | inl q ↦
        subst (λ x. has x k ≡ true) q
          (add_buy_stale b info k (λ j. let l = lost j in ground arith) h)
    | inr q ↦
        subst (λ x. has x k ≡ true) q
          (add_sell_stale b info k (λ j. let l = lost j in ground arith) h)
  ]
