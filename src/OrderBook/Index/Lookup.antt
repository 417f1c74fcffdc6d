-- ===== src/OrderBook/Index/Lookup.antt =====
-- What the index is good for: an id that the book has leads to its order.
use fix4_2_protocol.Base.{
  ℕ, Str, str_eq, str_eq_iff, true, ◌≡◌, ◌≢◌, inl, inr, refl, sym, ◌∙◌, none, some, List, [], ◌∷◌,
  arith, Bool-cases, Option-cases,
}
use fix4_2_protocol.Core.Float.{Float}
use fix4_2_protocol.Core.Order.{Order}
use fix4_2_protocol.OrderBook.{OrderBook, Node, Level, Book, OrderIdInfo, returned}
use fix4_2_protocol.OrderBook.Api.{has, get_order, get_bid, get_ask, read_order}
use fix4_2_protocol.OrderBook.Store.{find, find-append, contains-find, order_at, deref}
use fix4_2_protocol.OrderBook.Index.{level_index, index, LevelApart, Away, BookApart, IsValid}

module _ {F : Type 0} where
  order_at_head : (n : Node F) (ns : List (Node F)) → order_at n.addr (n ∷ ns) ≡ some n.order
  unfolding order_at
  order_at_head n ns = ground arith

  -- A node further on is not at the address of the first.
  order_at_tail :
      (a : ℕ) (n : Node F) (ns : List (Node F)) (o : Order F)
      → order_at n.addr ns ≡ none
      → order_at a ns ≡ some o
      → order_at a (n ∷ ns) ≡ some o
  unfolding order_at
  order_at_tail a n ns o once h = ground arith

  level_lookup :
      (k : Str) (i : OrderIdInfo F) (p : F) (ns : List (Node F))
      → LevelApart ns
      → find k (level_index p ns) ≡ some i
      → (o : Order F) × (order_at i.node ns ≡ some o) × (o.order_id ≡ k) × (i.price ≡ p)
  unfolding find
  level_lookup k i p [] w h = cc
  level_lookup k i p (n ∷ ns) (once, w) h = elim (Bool-cases (str_eq n.order.order_id k)) [
    | inl e ↦
        let found : i ≡ record { node = n.addr; price = p } = ground arith in
        (n.order, rw found (order_at_head n ns), (str_eq_iff n.order.order_id k).0 e, rw found refl)
    | inr e ↦
        let (o, at, id, pr) = level_lookup k i p ns w (rw e at h) in
        (o, order_at_tail i.node n ns o once at, id, pr)
  ]

  Away-none :
      (a : ℕ) (ns : List (Node F)) (b : Book F)
      → Away ns b
      → deref a b ≢ none
      → order_at a ns ≡ none
  unfolding order_at
  Away-none a [] b w h = refl
  Away-none a (n ∷ ns) b (x, w) h = ground (arith, Away-none a ns b w h)

  deref_level :
      (a : ℕ) (l : Level F) (b : Book F) (o : Order F)
      → order_at a l.orders ≡ some o
      → deref a (l ∷ b) ≡ some o
  unfolding deref
  deref_level a l b o h = ground arith

  deref_later :
      (a : ℕ) (l : Level F) (b : Book F) → order_at a l.orders ≡ none → deref a (l ∷ b) ≡ deref a b
  unfolding deref
  deref_later a l b h = ground arith

  -- The entry of an id in the index leads to the order with that id.
  pub index_lookup :
      (k : Str) (i : OrderIdInfo F) (b : Book F)
      → BookApart b
      → find k (index b) ≡ some i
      → (o : Order F) × (deref i.node b ≡ some o) × (o.order_id ≡ k)
  unfolding find
  index_lookup k i [] w h = cc
  index_lookup k i (l ∷ b) (wl, wa, wb) h =
      elim (Option-cases (find k (level_index l.price l.orders))) [
        | inl e ↦
            let (o, at, id) =
              index_lookup k i b wb
                (ground (arith, find-append k (level_index l.price l.orders) (index b))) in
            let gone = Away-none i.node l.orders b wa (λ z. cc) in
            (o, deref_later i.node l b gone ∙ at, id)
        | inr (j, e) ↦
            let (o, at, id, pr) =
              level_lookup k i l.price l.orders wl
                (ground (arith, find-append k (level_index l.price l.orders) (index b))) in
            (o, deref_level i.node l b o at, id)
      ]

module _ {F : Type 0} ⦃fl : Float F⦄ (b : OrderBook F) (v : IsValid b) (id : Str) where
  -- In a well-formed book, `getOrder` of an id that `has` confirms returns the order with that id: it
  -- neither throws nor follows an invalid iterator.
  pub get_order-has :
      has b id ≡ true → (o : Order F) × (get_order b id ≡ returned o) × (o.order_id ≡ id)
  unfolding has get_order get_bid get_ask read_order
  get_order-has h = elim (Option-cases (find id b.bid_id)) [
    | inr (i, e) ↦
        let (o, at, same) = index_lookup id i b.bid_book v.bids.apart (sym (v.bids.agree id) ∙ e) in
        (o, rw (e, get_bid) (rw at refl), same)
    | inl e ↦ elim (Option-cases (find id b.ask_id)) [
      | inr (i, f) ↦
          let (o, at, same) =
            index_lookup id i b.ask_book v.asks.apart (sym (v.asks.agree id) ∙ f) in
          (o, rw (e, get_bid) (rw (f, get_ask) (rw at refl)), same)
      | inl f ↦ absurd (ground (arith, contains-find id b.bid_id, contains-find id b.ask_id))
    ]
  ]
