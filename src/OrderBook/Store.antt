-- ===== src/OrderBook/Store.antt =====
-- server/src/OrderBook.cpp and server/include/Server/OrderBook.inl: the maps of the order book, and the
-- members that read and change one of them.
use fix4_2_protocol.Base.{
  ℕ, Str, codes, str_eq, str_eq_iff, ◌≡◌, refl, arith, Bool, true, false, ◌==◌, if◌then◌else◌,
  Option, none, some, List, [], ◌∷◌, ◌++◌,
}
use fix4_2_protocol.Core.Order.{Order}
use fix4_2_protocol.OrderBook.{
  Outcome, returned, thrown, undefined, Node, OrderIdInfo, OrderIdMap, Level, Book,
}

module _ {V : Type 0} where
  -- `unordered_map::find`
  unfoldable pub find : Str → List (Str × V) → Option V
  find k [] = none
  find k ((j, v) ∷ m) = if str_eq j k then some v else find k m

  -- `unordered_map::contains`
  unfoldable pub contains : Str → List (Str × V) → Bool
  contains k [] = false
  contains k ((j, v) ∷ m) = if str_eq j k then true else contains k m

  -- `unordered_map::erase`
  unfoldable pub erase : Str → List (Str × V) → List (Str × V)
  erase k [] = []
  erase k ((j, v) ∷ m) = if str_eq j k then erase k m else (j, v) ∷ erase k m

  -- `map[k] = v`
  unfoldable pub assign : Str → V → List (Str × V) → List (Str × V)
  assign k v [] = (k, v) ∷ []
  assign k v ((j, w) ∷ m) = if str_eq j k then (j, v) ∷ m else (j, w) ∷ assign k v m

module _ {V : Type 0} where
  pub find-erase :
      (k j : Str) (m : List (Str × V))
      → find k (erase j m) ≡ (if str_eq j k then none else find k m)
  unfolding find erase
  find-erase k j [] = ground arith
  find-erase k j ((i, v) ∷ m) =
      ground (arith, str_eq_iff i j, str_eq_iff j k, str_eq_iff i k, find-erase k j m)

  pub find-assign :
      (k j : Str) (v : V) (m : List (Str × V))
      → find k (assign j v m) ≡ (if str_eq j k then some v else find k m)
  unfolding find assign
  find-assign k j v [] = refl
  find-assign k j v ((i, w) ∷ m) =
      ground (arith, str_eq_iff i j, str_eq_iff j k, str_eq_iff i k, find-assign k j v m)

  pub find-append :
      (k : Str) (m n : List (Str × V))
      → find k (m ++ n) ≡ elim (find k m) [ some v ↦ some v | none ↦ find k n ]
  unfolding find
  find-append k [] n = refl
  find-append k ((j, v) ∷ m) n = ground (arith, find-append k m n)

  -- A key is in the map exactly where `find` finds a value.
  pub contains-find :
      (k : Str) (m : List (Str × V))
      → contains k m ≡ elim (find k m) [ some v ↦ true | none ↦ false ]
  unfolding contains find
  contains-find k [] = refl
  contains-find k ((j, v) ∷ m) = ground (arith, contains-find k m)

unfoldable pub on_return : {A B : Type 0} → (A → B) → Outcome A → Outcome B
on_return f (returned a) = returned (f a)
on_return f (thrown m) = thrown m
on_return f undefined = undefined

unfoldable pub and_then : {A B : Type 0} → Outcome A → (A → Outcome B) → Outcome B
and_then (returned a) f = f a
and_then (thrown m) f = thrown m
and_then undefined f = undefined

module _ {F : Type 0} where
  -- `removeFromIdMap`: the map after, and whether the id was there.
  unfoldable pub remove_from_id_map : OrderIdMap F → Str → OrderIdMap F × Bool
  unfolding contains erase
  remove_from_id_map ids id = if contains id ids then (erase id ids, true) else (ids, false)

  -- The order that an iterator into a list of nodes points at.
  unfoldable pub order_at : ℕ → List (Node F) → Option (Order F)
  order_at a [] = none
  order_at a (n ∷ ns) = if n.addr == a then some n.order else order_at a ns

  or_else : Option (Order F) → Option (Order F) → Option (Order F)
  or_else (some o) r = some o
  or_else none r = r

  -- The same over all the lists of a book: nodes are at distinct addresses.
  unfoldable pub deref : ℕ → Book F → Option (Order F)
  unfolding order_at or_else
  deref a [] = none
  deref a (l ∷ b) = or_else (order_at a l.orders) (deref a b)

  -- `list::erase` of an iterator; `none` where it points into another list, or nowhere.
  unfoldable pub erase_node : ℕ → List (Node F) → Option (List (Node F))
  erase_node a [] = none
  erase_node a (n ∷ ns) =
      if n.addr == a
      then some ns
      else elim (erase_node a ns) [ none ↦ none | some r ↦ some (n ∷ r) ]

module _ {F : Type 0} (before : F → F → Bool) where
  -- `_book[_price]` and `push_back`: the level of the price, or a new one at its place in the order.
  unfoldable pub push_back : F → Node F → Book F → Book F
  push_back p n [] = record { price = p; orders = n ∷ [] } ∷ []
  push_back p n (l ∷ b) =
      let later = l ∷ push_back p n b in
      if before l.price p
      then later
      else if before p l.price
      then record { price = p; orders = n ∷ [] } ∷ l ∷ b
      else record l { orders = l.orders ++ n ∷ [] } ∷ b

  -- `addToBook`, the new node at the address `a`.
  unfoldable pub add_to_book : Book F → OrderIdMap F → F → Order F → ℕ → Book F × OrderIdMap F
  unfolding push_back assign
  add_to_book book ids price o a = (
    push_back price (record { addr = a; order = o }) book,
    assign o.order_id (record { node = a; price = price }) ids,
  )

  -- `_book.at(_info.price).erase(_info.Order)` where the list of the price is found.
  unfoldable pub erase_in : Level F → Book F → Option (List (Node F)) → Outcome (Book F)
  erase_in l b none = undefined
  erase_in l b (some ns) = returned (record l { orders = ns } ∷ b)

  -- `cancelOrder`
  unfoldable pub cancel_order : Book F → OrderIdInfo F → Outcome (Book F)
  unfolding erase_node erase_in on_return
  cancel_order [] info = thrown (codes "map::at")
  cancel_order (l ∷ b) info =
      let later = on_return (λ r. l ∷ r) (cancel_order b info) in
      if before l.price info.price
      then later
      else if before info.price l.price
      then thrown (codes "map::at")
      else erase_in l b (erase_node info.node l.orders)
