-- ===== src/OrderBook/Index/Removal.antt =====
-- A node taken out of a book: what of the index stays.
use fix4_2_protocol.Base.{
  ℕ, Str, str_eq, str_eq_iff, Bool, true, ◌≡◌, ◌≢◌, none, List, [], ◌∷◌, arith, if◌then◌else◌,
}
use fix4_2_protocol.OrderBook.{Node, Level, Book}
use fix4_2_protocol.OrderBook.Store.{find, find-append, order_at, deref}
use fix4_2_protocol.OrderBook.Index.{
  level_index, index, Distinct, LevelApart, Away, BookApart, Later, Sorted,
}
use fix4_2_protocol.OrderBook.Index.Address.{order_at_cons, order_at_join, deref_cons, deref_join}
use fix4_2_protocol.OrderBook.Index.Sweep.{split-Distinct, join-Distinct}

module _ {F : Type 0} (n : Node F) where
  -- The second list is the first without its node n.
  pub data Removes : List (Node F) → List (Node F) → Type 0 where
    here : {ns : List (Node F)} → Removes (n ∷ ns) ns
    there : {m : Node F} {ns ns' : List (Node F)} → Removes ns ns' → Removes (m ∷ ns) (m ∷ ns')

  -- The second book is the first without its node n, of the price p.
  pub data Cuts (p : F) : Book F → Book F → Type 0 where
    level :
        {ns ns' : List (Node F)} {b : Book F}
        → Removes ns ns'
        → Cuts p (record { price = p; orders = ns } ∷ b) (record { price = p; orders = ns' } ∷ b)
    later : {l : Level F} {b b' : Book F} → Cuts p b b' → Cuts p (l ∷ b) (l ∷ b')

module _ {F : Type 0} {n : Node F} where
  pub Removes-at : {ns ns' : List (Node F)} → Removes n ns ns' → order_at n.addr ns ≢ none
  unfolding order_at
  Removes-at here h = ground arith
  Removes-at (there {m = m} r) h = ground (arith, Removes-at r)

  pub Removes-none :
      (a : ℕ) {ns ns' : List (Node F)}
      → Removes n ns ns'
      → order_at a ns ≡ none
      → order_at a ns' ≡ none
  Removes-none a (here {ns = ns}) h = (order_at_cons a n ns h).1
  Removes-none a (there {m = m} {ns = ns} {ns' = ns'} r) h =
      let (x, y) = order_at_cons a m ns h in order_at_join a m ns' x (Removes-none a r y)

  Removes-LevelApart : {ns ns' : List (Node F)} → Removes n ns ns' → LevelApart ns → LevelApart ns'
  Removes-LevelApart here (x, w) = w
  Removes-LevelApart (there {m = m} r) (x, w) = (Removes-none m.addr r x, Removes-LevelApart r w)

  Removes-Away : {ns ns' : List (Node F)} (b : Book F) → Removes n ns ns' → Away ns b → Away ns' b
  Removes-Away b here (x, w) = w
  Removes-Away b (there r) (x, w) = (x, Removes-Away b r w)

  Removes-present :
      (p : F) {ns ns' : List (Node F)}
      → Removes n ns ns'
      → find n.order.order_id (level_index p ns) ≢ none
  unfolding find
  Removes-present p here h = ground (arith, str_eq_iff n.order.order_id n.order.order_id)
  Removes-present p (there r) h = ground (arith, Removes-present p r)

  find-Removes :
      (k : Str) (p : F) {ns ns' : List (Node F)}
      → Removes n ns ns'
      → Distinct (level_index p ns)
      → find k (level_index p ns')
        ≡ (if str_eq n.order.order_id k then none else find k (level_index p ns))
  unfolding find
  find-Removes k p here (once, d) = ground (arith, str_eq_iff n.order.order_id k)
  find-Removes k p (there {m = m} r) (once, d) = ground (
    arith,
    find-Removes k p r d,
    Removes-present p r,
    str_eq_iff n.order.order_id k,
    str_eq_iff m.order.order_id k,
  )

  Removes-Distinct :
      (p : F) {ns ns' : List (Node F)}
      → Removes n ns ns'
      → Distinct (level_index p ns)
      → Distinct (level_index p ns')
  Removes-Distinct p here (once, d) = d
  Removes-Distinct p (there {m = m} r) (once, d) =
      (ground (arith, find-Removes m.order.order_id p r d), Removes-Distinct p r d)

module _ {F : Type 0} {n : Node F} {p : F} where
  Cuts-present : {b b' : Book F} → Cuts n p b b' → find n.order.order_id (index b) ≢ none
  Cuts-present (level {ns = ns} {b = b} r) h =
      ground (arith, Removes-present p r, find-append n.order.order_id (level_index p ns) (index b))
  Cuts-present (later {l = l} {b = b} c) h =
      ground (
        arith,
        Cuts-present c,
        find-append n.order.order_id (level_index l.price l.orders) (index b),
      )

  -- The id of the node is gone, and every other key as before.
  pub find-Cuts :
      (k : Str) {b b' : Book F}
      → Cuts n p b b'
      → Distinct (index b)
      → find k (index b') ≡ (if str_eq n.order.order_id k then none else find k (index b))
  find-Cuts k (level {ns = ns} {ns' = ns'} {b = b} r) d =
      let (dl, db, apart) = split-Distinct (level_index p ns) (index b) d in
      ground (
        arith,
        find-Removes k p r dl,
        Removes-present p r,
        apart k,
        str_eq_iff n.order.order_id k,
        find-append k (level_index p ns) (index b),
        find-append k (level_index p ns') (index b),
      )
  find-Cuts k (later {l = l} {b = b} {b' = b'} c) d =
      let (dl, db, apart) = split-Distinct (level_index l.price l.orders) (index b) d in
      ground (
        arith,
        find-Cuts k c db,
        Cuts-present c,
        apart k,
        str_eq_iff n.order.order_id k,
        find-append k (level_index l.price l.orders) (index b),
        find-append k (level_index l.price l.orders) (index b'),
      )

  pub Cuts-Distinct : {b b' : Book F} → Cuts n p b b' → Distinct (index b) → Distinct (index b')
  Cuts-Distinct (level {ns = ns} {b = b} r) d =
      let (dl, db, apart) = split-Distinct (level_index p ns) (index b) d in
      join-Distinct _ _
        (Removes-Distinct p r dl, db, λ k present. ground (arith, apart k, find-Removes k p r dl))
  Cuts-Distinct (later {l = l} {b = b} c) d =
      let (dl, db, apart) = split-Distinct (level_index l.price l.orders) (index b) d in
      join-Distinct _ _
        (dl, Cuts-Distinct c db, λ k present. ground (arith, apart k, find-Cuts k c db))

  pub Cuts-none : (a : ℕ) {b b' : Book F} → Cuts n p b b' → deref a b ≡ none → deref a b' ≡ none
  Cuts-none a (level {ns = ns} {b = b} r) h =
      let (x, y) = deref_cons a (record { price = p; orders = ns }) b h in
      deref_join a _ b (Removes-none a r x) y
  Cuts-none a (later {l = l} {b = b} {b' = b'} c) h =
      let (x, y) = deref_cons a l b h in deref_join a l b' x (Cuts-none a c y)

  Cuts-Away : {b b' : Book F} (ns : List (Node F)) → Cuts n p b b' → Away ns b → Away ns b'
  Cuts-Away [] c w = tt
  Cuts-Away (m ∷ ns) c (x, w) = (Cuts-none m.addr c x, Cuts-Away ns c w)

  pub Cuts-BookApart : {b b' : Book F} → Cuts n p b b' → BookApart b → BookApart b'
  Cuts-BookApart (level {b = b} r) (x, y, w) = (Removes-LevelApart r x, Removes-Away b r y, w)
  Cuts-BookApart (later {l = l} c) (x, y, w) = (x, Cuts-Away l.orders c y, Cuts-BookApart c w)

  module _ (before : F → F → Bool) where
    Cuts-Later : (q : F) {b b' : Book F} → Cuts n p b b' → Later before q b → Later before q b'
    Cuts-Later q (level r) h = h
    Cuts-Later q (later c) (x, h) = (x, Cuts-Later q c h)

    pub Cuts-Sorted : {b b' : Book F} → Cuts n p b b' → Sorted before b → Sorted before b'
    Cuts-Sorted (level r) h = h
    Cuts-Sorted (later {l = l} c) (x, h) = (Cuts-Later l.price c x, Cuts-Sorted c h)

    -- The price of the node is one of the book's.
    pub Cuts-price : (q : F) {b b' : Book F} → Cuts n p b b' → Later before q b → before q p ≡ true
    Cuts-price q (level r) (x, h) = x
    Cuts-price q (later c) (x, h) = Cuts-price q c h
