-- ===== src/OrderBook/Index/Add.antt =====
-- `add` keeps the order book well-formed.
use fix4_2_protocol.Base.{
  ℕ, suc, Str, str_eq, str_eq_iff, Bool, true, false, ◌≡◌, ◌⊎◌, inl, inr, refl, sym, subst, ◌∙◌,
  none, some, List, arith, if◌then◌else◌, Bool-cases,
}
use fix4_2_protocol.Core.Float.{Float, IsLinear, less, greater, less_equal, greater_equal}
use fix4_2_protocol.Core.Order.{Order}
use fix4_2_protocol.OrderBook.{
  Freed, Unchanged, OrderBook, OrderInfo, Node, Event, Ticks, Book, OrderIdMap, returned,
}
use fix4_2_protocol.OrderBook.Api.{has, add, add_buy, add_sell, resting}
use fix4_2_protocol.OrderBook.Match.{
  Progress, Ending, complete, blocked, exhausted, fill_book, fill_on_book, start, settle, push_main,
}
use fix4_2_protocol.OrderBook.Match.Run.{book_run}
use fix4_2_protocol.OrderBook.Store.{find, find-assign, contains-find, add_to_book}
use fix4_2_protocol.OrderBook.Index.{index, IsIndexed, IsValid, Sorted}
use fix4_2_protocol.OrderBook.Index.Address.{book_at, book_apart}
use fix4_2_protocol.OrderBook.Index.Insert.{
  find-push_back, push_back-Distinct, push_back-BookApart, deref-push_back,
}
use fix4_2_protocol.OrderBook.Index.Run.{Follows}
use fix4_2_protocol.OrderBook.Index.Order.{run-Sorted, push_back-Sorted}
use fix4_2_protocol.OrderBook.Index.Sweep.{book-Follows, book-Distinct}

module _ {F : Type 0} ⦃fl : Float F⦄ ⦃fr : Freed F⦄ where
  pub settle_ids :
      (info : OrderInfo F) (e : Ending) (s : Progress F) → (settle info e s).0.ids ≡ s.ids
  unfolding settle push_main
  settle_ids info complete s = refl
  settle_ids info blocked s = refl
  settle_ids info exhausted s = ground arith

  module _ (still : Unchanged fr) (cmp : F → F → Bool) (b : Book F) (ids : OrderIdMap F)
      (ticks : Ticks F) (out : List (Event F)) (info : OrderInfo F) (next : ℕ)
      (v : IsIndexed b ids next) where
    matched-Follows :
        (k : Str)
        → let r = fill_on_book cmp b ids ticks out info in
          Follows k ids (index b) r.0.ids (index r.1)
    unfolding fill_on_book start
    matched-Follows k =
        let r = fill_book cmp info.price info.order.side b (start info ids ticks out) in
        rw (settle_ids info r.2 r.0) (
          book-Follows still k
            (book_run cmp info.price info.order.side b (start info ids ticks out)) v.distinct)

    -- Matching keeps the book of the other side indexed.
    pub matched-IsIndexed :
        let r = fill_on_book cmp b ids ticks out info in IsIndexed r.1 r.0.ids next
    unfolding fill_on_book
    matched-IsIndexed =
        let run = book_run cmp info.price info.order.side b (start info ids ticks out) in
        record {
          agree = λ k. ground (arith, matched-Follows k, v.agree k);
          distinct = book-Distinct still run v.distinct;
          apart = book_apart run v.apart;
          fresh = λ a h. book_at a run (v.fresh a h);
        }

    -- Matching keeps the prices of the other side in order.
    pub matched-Sorted :
        (before : F → F → Bool)
        → Sorted before b
        → Sorted before (fill_on_book cmp b ids ticks out info).1
    unfolding fill_on_book
    matched-Sorted before h =
        run-Sorted before (book_run cmp info.price info.order.side b (start info ids ticks out)) h

    pub matched_absent :
        (k : Str) → find k ids ≡ none → find k (fill_on_book cmp b ids ticks out info).0.ids ≡ none
    matched_absent k h = ground (arith, matched-Follows k)

  module _ (before : F → F → Bool)
      (connex : (a b : F) → before a b ≡ false → before b a ≡ false → a ≡ b) (b : Book F)
      (ids : OrderIdMap F) (p : F) (o : Order F) (next : ℕ) (v : IsIndexed b ids next)
      (absent : find o.order_id ids ≡ none) where
    -- A new order keeps its own side indexed, its node at the next address.
    pub added-IsIndexed : let r = add_to_book before b ids p o next in IsIndexed r.0 r.1 (suc next)
    unfolding add_to_book
    added-IsIndexed =
        let n : Node F = record { addr = next; order = o } in
        let gone : find o.order_id (index b) ≡ none = sym (v.agree o.order_id) ∙ absent in
        record {
          agree = λ k. ground (
            arith,
            find-assign k o.order_id (record { node = next; price = p }) ids,
            find-push_back before connex p n k b gone,
            v.agree k,
          );
          distinct = push_back-Distinct before connex p n b gone v.distinct;
          apart = push_back-BookApart before connex p n b (v.fresh next (omega arith)) v.apart;
          fresh =
              λ a h. deref-push_back before connex p n a b (v.fresh a (omega arith)) (ground arith);
        }

    pub added-Sorted :
        ((x y z : F) → before x y ≡ true → before y z ≡ true → before x z ≡ true)
        → Sorted before b
        → Sorted before (add_to_book before b ids p o next).0
    unfolding add_to_book
    added-Sorted trans h =
        push_back-Sorted before connex trans p (record { addr = next; order = o }) b h

    pub added_other :
        (k : Str)
        → find k (add_to_book before b ids p o next).1
          ≡ (if str_eq o.order_id k then some (record { node = next; price = p }) else find k ids)
    unfolding add_to_book
    added_other k = find-assign k o.order_id (record { node = next; price = p }) ids

later_addr :
    {F : Type 0} (b : Book F) (ids : OrderIdMap F) (next : ℕ)
    → IsIndexed b ids next
    → IsIndexed b ids (suc next)
later_addr b ids next v = record {
  agree = v.agree;
  distinct = v.distinct;
  apart = v.apart;
  fresh = λ a h. v.fresh a (omega arith);
}

module _ {F : Type 0} ⦃fl : Float F⦄ ⦃fr : Freed F⦄ (lin : IsLinear fl) (still : Unchanged fr)
    (b : OrderBook F) (info : OrderInfo F) (v : IsValid b) where
  -- Both ways of `add`, for an id that neither side has.
  add_buy-IsValid :
      find info.order.order_id b.bid_id ≡ none
      → find info.order.order_id b.ask_id ≡ none
      → IsValid (add_buy b info)
  unfolding add_buy resting
  add_buy-IsValid hb ha =
      let r = fill_on_book less_equal b.ask_book b.ask_id b.ticks b.event_output info in
      let asks =
        matched-IsIndexed still less_equal b.ask_book b.ask_id b.ticks b.event_output info
          b.next_addr v.asks in
      let ask_order =
        matched-Sorted still less_equal b.ask_book b.ask_id b.ticks b.event_output info b.next_addr
          v.asks less v.ask_order in
      let gone =
        matched_absent still less_equal b.ask_book b.ask_id b.ticks b.event_output info b.next_addr
          v.asks in
      let o = resting info.order r.2 r.3 in
      let greater_connex =
        λ (x y : F) (h : greater x y ≡ false) (k : greater y x ≡ false). lin.lt_connex x y k h in
      elim (Bool-cases (fl.eq r.2 fl.zero)) [
        | inl e ↦ rw e (record {
          bids = v.bids;
          asks = asks;
          bid_order = v.bid_order;
          ask_order = ask_order;
          one_side = λ k. ground (arith, v.one_side k, gone k);
        })
        | inr e ↦ rw e (record {
          bids =
              added-IsIndexed greater greater_connex b.bid_book b.bid_id info.price o b.next_addr
                v.bids hb;
          asks = later_addr _ _ b.next_addr asks;
          bid_order =
              added-Sorted greater greater_connex b.bid_book b.bid_id info.price o b.next_addr
                v.bids hb (λ x y z h k. lin.lt_trans z y x k h) v.bid_order;
          ask_order = ask_order;
          one_side = λ k. ground (
            arith,
            v.one_side k,
            gone k,
            str_eq_iff info.order.order_id k,
            ha,
            added_other greater greater_connex b.bid_book b.bid_id info.price o b.next_addr v.bids
                hb k,
          );
        })
      ]

  add_sell-IsValid :
      find info.order.order_id b.bid_id ≡ none
      → find info.order.order_id b.ask_id ≡ none
      → IsValid (add_sell b info)
  unfolding add_sell resting
  add_sell-IsValid hb ha =
      let r = fill_on_book greater_equal b.bid_book b.bid_id b.ticks b.event_output info in
      let bids =
        matched-IsIndexed still greater_equal b.bid_book b.bid_id b.ticks b.event_output info
          b.next_addr v.bids in
      let bid_order =
        matched-Sorted still greater_equal b.bid_book b.bid_id b.ticks b.event_output info
          b.next_addr v.bids greater v.bid_order in
      let gone =
        matched_absent still greater_equal b.bid_book b.bid_id b.ticks b.event_output info
          b.next_addr v.bids in
      let o = resting info.order r.2 r.3 in
      elim (Bool-cases (fl.eq r.2 fl.zero)) [
        | inl e ↦ rw e (record {
          bids = bids;
          asks = v.asks;
          bid_order = bid_order;
          ask_order = v.ask_order;
          one_side = λ k. ground (arith, v.one_side k, gone k);
        })
        | inr e ↦ rw e (record {
          bids = later_addr _ _ b.next_addr bids;
          asks =
              added-IsIndexed less lin.lt_connex b.ask_book b.ask_id info.price o b.next_addr v.asks
                ha;
          bid_order = bid_order;
          ask_order =
              added-Sorted less lin.lt_connex b.ask_book b.ask_id info.price o b.next_addr v.asks ha
                lin.lt_trans v.ask_order;
          one_side = λ k. ground (
            arith,
            v.one_side k,
            gone k,
            str_eq_iff info.order.order_id k,
            hb,
            added_other less lin.lt_connex b.ask_book b.ask_id info.price o b.next_addr v.asks ha k,
          );
        })
      ]

  add_cases :
      (b' : OrderBook F) → add b info ≡ returned b' → (add_buy b info ≡ b') ⊎ (add_sell b info ≡ b')
  unfolding add
  add_cases b' e = ground arith

  -- Where freed nodes still read as they were, and over prices that compare as on a line, `add` of an order with an id
  -- that the book does not have keeps the book well-formed: each id map has
  -- exactly the nodes of its book, ids and addresses are used once, the
  -- levels are in order with the best price first, and no id is on both sides.
  pub add-IsValid :
      (b' : OrderBook F) → has b info.order.order_id ≡ false → add b info ≡ returned b' → IsValid b'
  unfolding has
  add-IsValid b' new e =
      let hb : find info.order.order_id b.bid_id ≡ none =
        ground (arith, contains-find info.order.order_id b.bid_id) in
      let ha : find info.order.order_id b.ask_id ≡ none =
        ground (arith, contains-find info.order.order_id b.ask_id) in
      elim (add_cases b' e) [
        | inl q ↦ subst IsValid q (add_buy-IsValid hb ha)
        | inr q ↦ subst IsValid q (add_sell-IsValid hb ha)
      ]
