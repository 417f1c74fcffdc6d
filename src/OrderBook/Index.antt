-- ===== src/OrderBook/Index.antt =====
-- The well-formedness of the order book: its id maps index the nodes of its lists.
pub mod Run
pub mod Sweep
pub mod Insert
pub mod Lookup
pub mod Add
pub mod Stale
pub mod Order
pub mod Address
pub mod Removal
pub mod Cancel
use fix4_2_protocol.Base.{
  ℕ, Str, Bool, true, ◌≤◌, ◌≡◌, ◌⊎◌, Option, none, some, List, [], ◌∷◌, ◌++◌,
}
use fix4_2_protocol.Core.Float.{Float, less, greater}
use fix4_2_protocol.OrderBook.{OrderBook, Node, OrderIdInfo, OrderIdMap, Level, Book}
use fix4_2_protocol.OrderBook.Store.{find, order_at, deref}

module _ {F : Type 0} where
  -- The entries that the id map should have for the nodes of a list, and of a book.
  abbrev pub level_index : F → List (Node F) → OrderIdMap F
  level_index price [] = []
  level_index price (n ∷ ns) =
      (n.order.order_id, record { node = n.addr; price = price }) ∷ level_index price ns

  abbrev pub index : Book F → OrderIdMap F
  index [] = []
  index (l ∷ b) = level_index l.price l.orders ++ index b

  -- No id twice.
  abbrev pub Distinct : OrderIdMap F → Type 0
  Distinct [] = Unit {0}
  Distinct ((k, v) ∷ m) = (find k m ≡ none) × Distinct m

  -- No address twice, in a list and in a book.
  abbrev pub LevelApart : List (Node F) → Type 0
  LevelApart [] = Unit {0}
  LevelApart (n ∷ ns) = (order_at n.addr ns ≡ none) × LevelApart ns

  -- The addresses of a list are not those of a book.
  abbrev pub Away : List (Node F) → Book F → Type 0
  Away [] b = Unit {0}
  Away (n ∷ ns) b = (deref n.addr b ≡ none) × Away ns b

  abbrev pub BookApart : Book F → Type 0
  BookApart [] = Unit {0}
  BookApart (l ∷ b) = LevelApart l.orders × Away l.orders b × BookApart b

  -- The id map has exactly the entries of the book's nodes; ids and addresses are used once, and the
  -- addresses from `next` on are free.
  pub record IsIndexed (book : Book F) (ids : OrderIdMap F) (next : ℕ) : Type 0 where
    pub agree : (k : Str) → find k ids ≡ find k (index book)
    pub distinct : Distinct (index book)
    pub apart : BookApart book
    pub fresh : (a : ℕ) → next ≤ a → deref a book ≡ none

  -- Every price of the book comes after p.
  abbrev pub Later : (F → F → Bool) → F → Book F → Type 0
  Later before p [] = Unit {0}
  Later before p (l ∷ b) = (before p l.price ≡ true) × Later before p b

  -- The prices of the book go up in the order of its map.
  abbrev pub Sorted : (F → F → Bool) → Book F → Type 0
  Sorted before [] = Unit {0}
  Sorted before (l ∷ b) = Later before l.price b × Sorted before b

module _ {F : Type 0} ⦃fl : Float F⦄ where
  -- Both sides are indexed and in order, the best price first, and no id is on both.
  pub record IsValid (b : OrderBook F) : Type 0 where
    pub bids : IsIndexed b.bid_book b.bid_id b.next_addr
    pub asks : IsIndexed b.ask_book b.ask_id b.next_addr
    pub bid_order : Sorted greater b.bid_book
    pub ask_order : Sorted less b.ask_book
    pub one_side : (k : Str) → (find k b.bid_id ≡ none) ⊎ (find k b.ask_id ≡ none)
