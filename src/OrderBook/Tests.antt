-- ===== src/OrderBook/Tests.antt =====
-- The order book on a small market: runs of the code, and each theorem at a concrete input.
use fix4_2_protocol.Base.{
  if◌then◌else◌, true, false, ℕ, Str, codes, ◌≡◌, inl, refl, List, [], ◌∷◌, ◌++◌, arith, ◌+◌,
  str_eq,
}
use fix4_2_protocol.Core.Enum.{Side, OrderStatus}
use fix4_2_protocol.Core.Float.{
  naturals, naturals-SubSelf, naturals-IsLinear, naturals-IsExact, less_equal,
}
use fix4_2_protocol.Core.Order.{Order}
use fix4_2_protocol.OrderBook.{
  Freed, remembered, remembered-Unchanged, OrderBook, OrderInfo, Node, Book, zero_plus_tick,
  returned, Outcome,
}
use fix4_2_protocol.OrderBook.Api.{has_on, cancel, create, add, get_order, has}
use fix4_2_protocol.OrderBook.Index.{IsValid}
use fix4_2_protocol.OrderBook.Index.Add.{add-IsValid}
use fix4_2_protocol.OrderBook.Index.Stale.{add-has_stale}
use fix4_2_protocol.OrderBook.Index.Cancel.{cancel-has_on}
use fix4_2_protocol.OrderBook.Index.Lookup.{get_order-has}
use fix4_2_protocol.OrderBook.Match.{Progress, fill_book}
use fix4_2_protocol.OrderBook.Match.Cleared.{fill_book_cleared}
use fix4_2_protocol.OrderBook.Match.Conservation.{fill_book-Balance}
use fix4_2_protocol.OrderBook.Match.Priority.{tags, queue, fill_book-queue, fill_book_exhausted}
use fix4_2_protocol.OrderBook.Match.Quantity.{book_stock}
use fix4_2_protocol.OrderBook.Store.{find, deref}

abbrev an_order : Str → Str → ℕ → Side → Order ℕ
an_order user id qty side = record {
  user_id = user;
  order_id = id;
  original_qty = qty;
  remain_qty = qty;
  avg_price = 0;
  side = side;
  status = OrderStatus.new_order;
}

abbrev resting_node : ℕ → Str → Str → ℕ → Node ℕ
resting_node a user id qty = record { addr = a; order = an_order user id qty Side.sell }

abbrev asks : Book ℕ
asks =
    record {
      price = 9;
      orders =
          resting_node 0 (codes "alice") (codes "s1") 5
          ∷ resting_node 1 (codes "bob") (codes "s2") 3
          ∷ resting_node 2 (codes "carol") (codes "s3") 4
          ∷ [];
    }
    ∷ record { price = 11; orders = resting_node 3 (codes "alice") (codes "s4") 4 ∷ [] }
    ∷ []

-- A purchase by bob, before it meets the asks.
abbrev purchase : ℕ → Progress ℕ
purchase qty = record {
  main = record {
    exec_status = OrderStatus.new_order;
    last_price = 0;
    last_qty = 0;
    order = an_order (codes "bob") (codes "b1") qty Side.buy;
  };
  ids = [];
  ticks = record { lastprice = 0; lastprice_diff = 0; tick = zero_plus_tick };
  output = [];
}

-- bob's own order is passed over, and the price of 11 is beyond the limit.
purchase_trades :
    tags (fill_book less_equal 10 Side.buy asks (purchase 7)).0.output
    ≡ (9, codes "s1") ∷ (9, codes "s3") ∷ []
unfolding fill_book str_eq
purchase_trades = refl

fill_book-queue_example :
    (rest : List (ℕ × Str)) × (tags (fill_book less_equal 10 Side.buy asks (purchase 7)).0.output
        ++ rest
      ≡ [] ++ queue less_equal 10 (codes "bob") asks)
fill_book-queue_example = fill_book-queue less_equal 10 Side.buy asks (purchase 7)

fill_book_exhausted_example :
    tags (fill_book less_equal 10 Side.buy asks (purchase 20)).0.output
    ≡ [] ++ queue less_equal 10 (codes "bob") asks
unfolding fill_book str_eq
fill_book_exhausted_example = fill_book_exhausted less_equal 10 Side.buy asks (purchase 20) refl

fill_book_cleared_example :
    queue less_equal 10 (codes "bob") (fill_book less_equal 10 Side.buy asks (purchase 20)).1 ≡ []
unfolding fill_book str_eq
fill_book_cleared_example =
    fill_book_cleared naturals-SubSelf less_equal 10 Side.buy asks (purchase 20) refl

fill_book-Balance_example :
    book_stock (λ n. n) (fill_book less_equal 10 Side.buy asks (purchase 7)).1 + 7
    ≡ 16 + (fill_book less_equal 10 Side.buy asks (purchase 7)).0.main.order.remain_qty
fill_book-Balance_example =
    (fill_book-Balance (λ n. n) (λ n. n) naturals-IsExact less_equal 10 Side.buy asks (purchase 7)
      (omega arith) (omega arith)).2.0

abbrev info : Str → Str → ℕ → ℕ → Side → OrderInfo ℕ
info user id price qty side = record {
  execid = codes "x";
  price = price;
  order = an_order user id qty side;
}

empty-IsValid : IsValid (create {F = ℕ} (codes "ACME"))
unfolding create find deref
empty-IsValid = record {
  bids = record { agree = λ k. refl; distinct = tt; apart = tt; fresh = λ a h. refl };
  asks = record { agree = λ k. refl; distinct = tt; apart = tt; fresh = λ a h. refl };
  bid_order = tt;
  ask_order = tt;
  one_side = λ k. inl refl;
}

-- A market with one sell order.
abbrev one_ask : Outcome (OrderBook ℕ)
one_ask = add (create (codes "ACME")) (info (codes "alice") (codes "s1") 9 5 Side.sell)

abbrev the_book : Outcome (OrderBook ℕ) → OrderBook ℕ
the_book (returned b) = b
the_book _ = create (codes "ACME")

one_ask-IsValid : IsValid (the_book one_ask)
unfolding add create has
one_ask-IsValid =
    add-IsValid naturals-IsLinear remembered-Unchanged (create (codes "ACME"))
      (info (codes "alice") (codes "s1") 9 5 Side.sell) empty-IsValid (the_book one_ask) refl refl

add-IsValid_example : IsValid (the_book one_ask)
unfolding add create has
add-IsValid_example =
    add-IsValid naturals-IsLinear remembered-Unchanged (create (codes "ACME"))
      (info (codes "alice") (codes "s1") 9 5 Side.sell) empty-IsValid (the_book one_ask) refl refl

get_order-has_example :
    (o : Order ℕ) × (get_order (the_book one_ask) (codes "s1") ≡ returned o)
    × (o.order_id ≡ codes "s1")
unfolding add create has str_eq
get_order-has_example = get_order-has (the_book one_ask) one_ask-IsValid (codes "s1") refl

cancel-has_on_example :
    (b' : OrderBook ℕ) × (cancel (the_book one_ask) (codes "s1") Side.sell ≡ returned b')
    × IsValid b'
    × ((k : Str) → has b' k ≡ (if str_eq (codes "s1") k then false else has (the_book one_ask) k))
unfolding add create has_on str_eq
cancel-has_on_example =
    cancel-has_on naturals-IsLinear remembered-Unchanged (the_book one_ask) one_ask-IsValid
      (codes "s1") Side.sell refl

-- Freed ids read as the empty text, which no order has.
abbrev forgetful : Freed ℕ
forgetful = record { id_read = λ j. []; entry_read = λ i. returned i }

-- bob buys all that alice sells: her order leaves the book.
abbrev sold_out : OrderBook ℕ
sold_out =
    the_book
      (add ⦃fr = forgetful⦄ (the_book one_ask) (info (codes "bob") (codes "b1") 9 5 Side.buy))

sold_out_asks : sold_out.ask_book ≡ record { price = 9; orders = [] } ∷ []
unfolding add create str_eq
sold_out_asks = refl

add-has_stale_example : has sold_out (codes "s1") ≡ true
unfolding add create has str_eq
add-has_stale_example =
    add-has_stale ⦃fr = forgetful⦄ (the_book one_ask) sold_out
      (info (codes "bob") (codes "b1") 9 5 Side.buy) (codes "s1") (λ j. refl) refl refl
