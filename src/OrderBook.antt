-- ===== src/OrderBook.antt =====
-- server/include/Server/OrderBook.hpp: the types and the state of the order book of one market.
-- `Price` and `Quantity` are a type F with the operations of `Float`. An iterator into an `OrderList`
-- is the address of its list node, which the insertion draws from a counter. A map from prices is the list of its
-- pairs in the map's order; an unordered map is the list of its pairs. What reaches `m_event_output` is kept
-- in `event_output`, oldest first. Mutexes and log lines are left out: a call runs without interleaving.
pub mod Tick
pub mod Match
pub mod Store
pub mod Api
pub mod Index
mod Tests
use fix4_2_protocol.Base.{ℕ, Str, List, ◌≡◌, refl}
use fix4_2_protocol.Core.Enum.{OrderStatus}
use fix4_2_protocol.Core.Order.{Order}

-- A call returns, throws, or does what C++ leaves undefined: a read through an invalid iterator, or the
-- end of a function that returns nothing.
pub data Outcome (A : Type 0) : Type 0 where
  returned : A → Outcome A
  thrown : Str → Outcome A
  undefined : Outcome A

pub data TickDirection : Type 0 where
  plus_tick zero_plus_tick minus_tick zero_minus_tick : TickDirection

module _ (F : Type 0) where
  pub record OrderInfo : Type 0 where
    pub execid : Str
    pub price : F
    pub order : Order F

  -- A node of an `OrderList`.
  pub record Node : Type 0 where
    pub addr : ℕ
    pub order : Order F

  pub record OrderIdInfo : Type 0 where
    pub node : ℕ
    pub price : F

  pub record Event : Type 0 where
    pub exec_status : OrderStatus
    pub last_price : F
    pub last_qty : F
    pub order : Order F

  pub record Level : Type 0 where
    pub price : F
    pub orders : List (Node)

  -- What a read of an object gives once its memory is freed, which C++ leaves open: the id of an order whose
  -- node is erased, and the entry of an id map that is erased.
  pub record Freed : Type 0 where
    pub id_read : Str → Str
    pub entry_read : OrderIdInfo → Outcome OrderIdInfo

  abbrev pub Book : Type 0
  Book = List Level

  abbrev pub OrderIdMap : Type 0
  OrderIdMap = List (Str × OrderIdInfo)

  -- `m_lastprice`, `m_lastprice_diff` and `m_tick`.
  pub record Ticks : Type 0 where
    pub lastprice : F
    pub lastprice_diff : F
    pub tick : TickDirection

  pub record OrderBook : Type 0 where
    pub name : Str
    pub ticks : Ticks
    pub event_output : List Event
    pub bid_id : OrderIdMap
    pub ask_id : OrderIdMap
    pub ask_book : Book
    pub bid_book : Book
    pub next_addr : ℕ

-- The allocator leaves the bytes of a freed object as they were.
pub record Unchanged {F : Type 0} (fr : Freed F) : Type 0 where
  pub id_same : (id : Str) → fr.id_read id ≡ id
  pub entry_same : (i : OrderIdInfo F) → fr.entry_read i ≡ returned i

-- Freed objects that read as they were, for tests.
instance abbrev pub remembered : Freed ℕ
remembered = record { id_read = λ id. id; entry_read = λ i. returned i }

pub remembered-Unchanged : Unchanged remembered
remembered-Unchanged = record { id_same = λ id. refl; entry_same = λ i. refl }
