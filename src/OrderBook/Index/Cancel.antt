-- ===== src/OrderBook/Index/Cancel.antt =====
-- `cancel` of an order that the book has.
use fix4_2_protocol.Base.{
  ℕ, ◌==◌, Str, str_eq, str_eq_iff, Bool, true, false, ◌≡◌, ◌⊎◌, inl, inr, refl, sym, ◌∙◌, some,
  List, [], ◌∷◌, arith, if◌then◌else◌, Bool-cases, Option-cases,
}
use fix4_2_protocol.Core.Enum.{Side}
use fix4_2_protocol.Core.Float.{Float, IsLinear, less, greater}
use fix4_2_protocol.OrderBook.{
  Freed, Unchanged, OrderBook, Node, Level, Book, OrderIdInfo, OrderIdMap, returned,
}
use fix4_2_protocol.OrderBook.Api.{
  Direction, buying, selling, unsupported, direction, has, has_on, cancel, cancel_buy, cancel_sell,
}
use fix4_2_protocol.OrderBook.Store.{
  find, find-append, contains-find, erase_node, erase_in, cancel_order, on_return, and_then,
  remove_from_id_map,
}
use fix4_2_protocol.OrderBook.Index.{
  level_index, index, LevelApart, BookApart, IsIndexed, IsValid, Sorted,
}
use fix4_2_protocol.OrderBook.Index.Run.{find-remove_from_id_map}
use fix4_2_protocol.OrderBook.Index.Removal.{
  Removes, Cuts, here, there, level, later, Removes-at, find-Cuts, Cuts-Distinct, Cuts-none,
  Cuts-BookApart, Cuts-Sorted, Cuts-price,
}

pub Direction-cases : (d : Direction) → (d ≡ buying) ⊎ (d ≡ selling) ⊎ (d ≡ unsupported)
Direction-cases buying = inl refl
Direction-cases selling = inr (inl refl)
Direction-cases unsupported = inr (inr refl)

module _ {F : Type 0} where
  erase_node_head : (n : Node F) (ns : List (Node F)) → erase_node n.addr (n ∷ ns) ≡ some ns
  unfolding erase_node
  erase_node_head n ns = ground arith

  erase_node_tail :
      (a : ℕ) (m : Node F) (ns ns' : List (Node F))
      → (m.addr == a) ≡ false
      → erase_node a ns ≡ some ns'
      → erase_node a (m ∷ ns) ≡ some (m ∷ ns')
  unfolding erase_node
  erase_node_tail a m ns ns' e h = rw (e, h) refl

  -- The entry of an id leads to the node with the id, which is erased.
  abbrev Erased : Str → OrderIdInfo F → F → List (Node F) → Type 0
  Erased k i p ns =
      (n : Node F) × (ns' : List (Node F)) × Removes n ns ns'
      × (erase_node i.node ns ≡ some ns')
      × (i ≡ record { node = n.addr; price = p })
      × (n.order.order_id ≡ k)

  level-Erased :
      (k : Str) (i : OrderIdInfo F) (p : F) (ns : List (Node F))
      → LevelApart ns
      → find k (level_index p ns) ≡ some i
      → Erased k i p ns
  unfolding find
  level-Erased k i p [] w h = cc
  level-Erased k i p (m ∷ ns) (once, w) h = elim (Bool-cases (str_eq m.order.order_id k)) [
    | inl e ↦
        let found : i ≡ record { node = m.addr; price = p } = ground arith in
        (m, ns, here, rw found (erase_node_head m ns), found, (str_eq_iff m.order.order_id k).0 e)
    | inr e ↦
        let (n, ns', r, er, found, id) = level-Erased k i p ns w (rw e at h) in
        let apart : (m.addr == i.node) ≡ false = elim (Bool-cases (m.addr == i.node)) [
          | inr f ↦ f
          | inl f ↦ absurd (Removes-at r (ground arith))
        ] in
        (n, m ∷ ns', there r, erase_node_tail i.node m ns ns' apart er, found, id)
  ]

module _ {F : Type 0} (before : F → F → Bool) (irrefl : (p : F) → before p p ≡ false) where
  cancel_here :
      (i : OrderIdInfo F) (l : Level F) (b : Book F) (ns : List (Node F))
      → i.price ≡ l.price
      → erase_node i.node l.orders ≡ some ns
      → cancel_order before (l ∷ b) i ≡ returned (record l { orders = ns } ∷ b)
  unfolding cancel_order erase_in
  cancel_here i l b ns e h = rw (e, irrefl l.price, h) refl

  cancel_later :
      (i : OrderIdInfo F) (l : Level F) (b b' : Book F)
      → before l.price i.price ≡ true
      → cancel_order before b i ≡ returned b'
      → cancel_order before (l ∷ b) i ≡ returned (l ∷ b')
  unfolding cancel_order on_return
  cancel_later i l b b' e h = rw (e, h) refl

  -- The entry of an id leads `cancelOrder` to the list of its price and the node with the id.
  book_erased :
      (k : Str) (i : OrderIdInfo F) (b : Book F)
      → BookApart b
      → Sorted before b
      → find k (index b) ≡ some i
      → (n : Node F) × (b' : Book F) × Cuts n i.price b b'
        × (cancel_order before b i ≡ returned b')
        × (n.order.order_id ≡ k)
  unfolding find
  book_erased k i [] w o h = cc
  book_erased k i (l ∷ b) (wl, wa, wb) (first, o) h =
      elim (Option-cases (find k (level_index l.price l.orders))) [
        | inl e ↦
            let (n, b', c, run, id) =
              book_erased k i b wb o
                (ground (arith, find-append k (level_index l.price l.orders) (index b))) in
            (n, l ∷ b', later c, cancel_later i l b b' (Cuts-price before l.price c first) run, id)
        | inr (j, e) ↦
            let (n, ns', r, er, found, id) =
              level-Erased k i l.price l.orders wl
                (ground (arith, find-append k (level_index l.price l.orders) (index b))) in
            (
              n,
              record l { orders = ns' } ∷ b,
              rw found (level r),
              cancel_here i l b ns' (rw found refl) er,
              id,
            )
      ]

  -- One side of the book after a cancel.
  abbrev Cancelled : Book F → OrderIdMap F → ℕ → OrderIdInfo F → Str → Type 0
  Cancelled b ids next i id =
      (b' : Book F) × (cancel_order before b i ≡ returned b')
      × IsIndexed b' (remove_from_id_map ids id).0 next
      × Sorted before b'

  cancelled :
      (b : Book F) (ids : OrderIdMap F) (next : ℕ) (i : OrderIdInfo F) (id : Str)
      → IsIndexed b ids next
      → Sorted before b
      → find id ids ≡ some i
      → Cancelled b ids next i id
  cancelled b ids next i id v o h =
      let (n, b', c, run, same) = book_erased id i b v.apart o (sym (v.agree id) ∙ h) in
      (
        b',
        run,
        record {
          agree = λ k.
              ground (arith, find-remove_from_id_map k id ids, find-Cuts k c v.distinct, v.agree k);
          distinct = Cuts-Distinct c v.distinct;
          apart = Cuts-BookApart c v.apart;
          fresh = λ a h. Cuts-none a c (v.fresh a h);
        },
        Cuts-Sorted before c o,
      )

module _ {F : Type 0} ⦃fl : Float F⦄ ⦃fr : Freed F⦄ (lin : IsLinear fl) (still : Unchanged fr)
    (b : OrderBook F) (v : IsValid b) (id : Str) where
  -- What a cancel of the id leads to.
  abbrev Without : OrderBook F → Type 0
  Without b' = IsValid b' × ((k : Str) → has b' k ≡ (if str_eq id k then false else has b k))

  buy_cancelled :
      (i : OrderIdInfo F)
      → find id b.bid_id ≡ some i
      → (b' : OrderBook F) × (cancel_buy b id (some i) ≡ returned b') × Without b'
  unfolding cancel_buy on_return and_then has
  buy_cancelled i h =
      let (book, run, w, o) =
        cancelled greater lin.lt_irrefl b.bid_book b.bid_id b.next_addr i id v.bids v.bid_order h in
      (
        record b { bid_id = (remove_from_id_map b.bid_id id).0; bid_book = book },
        rw (still.entry_same i, run) refl,
        (
          record {
            bids = w;
            asks = v.asks;
            bid_order = o;
            ask_order = v.ask_order;
            one_side = λ k. ground (arith, v.one_side k, find-remove_from_id_map k id b.bid_id);
          },
          λ k. ground (
            arith,
            v.one_side k,
            str_eq_iff id k,
            find-remove_from_id_map k id b.bid_id,
            contains-find k b.bid_id,
            contains-find k b.ask_id,
            contains-find k (remove_from_id_map b.bid_id id).0,
          ),
        ),
      )

  sell_cancelled :
      (i : OrderIdInfo F)
      → find id b.ask_id ≡ some i
      → (b' : OrderBook F) × (cancel_sell b id (some i) ≡ returned b') × Without b'
  unfolding cancel_sell on_return and_then has
  sell_cancelled i h =
      let (book, run, w, o) =
        cancelled less lin.lt_irrefl b.ask_book b.ask_id b.next_addr i id v.asks v.ask_order h in
      (
        record b { ask_id = (remove_from_id_map b.ask_id id).0; ask_book = book },
        rw (still.entry_same i, run) refl,
        (
          record {
            bids = v.bids;
            asks = w;
            bid_order = v.bid_order;
            ask_order = o;
            one_side = λ k. ground (arith, v.one_side k, find-remove_from_id_map k id b.ask_id);
          },
          λ k. ground (
            arith,
            v.one_side k,
            str_eq_iff id k,
            find-remove_from_id_map k id b.ask_id,
            contains-find k b.bid_id,
            contains-find k b.ask_id,
            contains-find k (remove_from_id_map b.ask_id id).0,
          ),
        ),
      )

  -- In a well-formed book, over prices that compare as on a line, and where a freed entry still reads as it was, `cancel` of an id that `has` confirms on its side returns: it
  -- neither throws nor erases an invalid iterator. The book after is well-formed, it no longer has the id,
  -- and it has every other id as before.
  pub cancel-has_on :
      (side : Side)
      → has_on b id side ≡ true
      → (b' : OrderBook F) × (cancel b id side ≡ returned b')
        × IsValid b'
        × ((k : Str) → has b' k ≡ (if str_eq id k then false else has b k))
  unfolding cancel has_on
  cancel-has_on side h = elim (Direction-cases (direction side)) [
    | inl e ↦ elim (Option-cases (find id b.bid_id)) [
      | inl g ↦ absurd (ground (arith, contains-find id b.bid_id))
      | inr (i, g) ↦
          let (b', run, (w, ids)) = buy_cancelled i g in (b', rw (cancel, e, g) run, w, ids)
    ]
    | inr (inl e) ↦ elim (Option-cases (find id b.ask_id)) [
      | inl g ↦ absurd (ground (arith, contains-find id b.ask_id))
      | inr (i, g) ↦
          let (b', run, (w, ids)) = sell_cancelled i g in (b', rw (cancel, e, g) run, w, ids)
    ]
    | inr (inr e) ↦ absurd (ground arith)
  ]
