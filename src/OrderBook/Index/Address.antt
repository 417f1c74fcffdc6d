-- ===== src/OrderBook/Index/Address.antt =====
-- Matching keeps the nodes at distinct addresses.
use fix4_2_protocol.Base.{
  ℕ, ◌==◌, Bool, false, ◌≡◌, ◌≢◌, inl, inr, none, List, [], ◌∷◌, ◌++◌, arith,
}
use fix4_2_protocol.Core.Enum.{Side}
use fix4_2_protocol.Core.Float.{Float}
use fix4_2_protocol.OrderBook.{Freed, Node, Level, Book}
use fix4_2_protocol.OrderBook.Match.{Progress, Ending, skipped}
use fix4_2_protocol.OrderBook.Match.Run.{
  LevelRun, BookRun, left, filling, end, skip, stop, next, break, block, finish, descend,
}
use fix4_2_protocol.OrderBook.Store.{order_at, deref}
use fix4_2_protocol.OrderBook.Index.{LevelApart, Away, BookApart}
use fix4_2_protocol.OrderBook.Index.Run.{trade_cases}

module _ {F : Type 0} where
  pub order_at_cons :
      (a : ℕ) (n : Node F) (ns : List (Node F))
      → order_at a (n ∷ ns) ≡ none
      → ((n.addr == a) ≡ false) × (order_at a ns ≡ none)
  unfolding order_at
  order_at_cons a n ns h = ground arith

  pub order_at_join :
      (a : ℕ) (n : Node F) (ns : List (Node F))
      → (n.addr == a) ≡ false
      → order_at a ns ≡ none
      → order_at a (n ∷ ns) ≡ none
  unfolding order_at
  order_at_join a n ns e h = ground arith

  pub deref_cons :
      (a : ℕ) (l : Level F) (b : Book F)
      → deref a (l ∷ b) ≡ none
      → (order_at a l.orders ≡ none) × (deref a b ≡ none)
  unfolding deref
  deref_cons a l b h = ground arith

  pub deref_join :
      (a : ℕ) (l : Level F) (b : Book F)
      → order_at a l.orders ≡ none
      → deref a b ≡ none
      → deref a (l ∷ b) ≡ none
  unfolding deref
  deref_join a l b h k = ground arith

module _ {F : Type 0} ⦃fl : Float F⦄ ⦃fr : Freed F⦄ where
  left_at :
      (a : ℕ) (price : F) (n : Node F) (s : Progress F) (ns : List (Node F))
      → (filling price n s).status ≢ skipped
      → (n.addr == a) ≡ false
      → order_at a ns ≡ none
      → order_at a (left price n s ++ ns) ≡ none
  left_at a price n s ns g e h = elim (trade_cases price n s g) [
    | inl (o, l, id, i) ↦ rw l (order_at_join a (record n { order = o }) ns e h)
    | inr (l, i) ↦ rw l h
  ]

  level_at :
      (a : ℕ) {price : F} {ns ns' : List (Node F)} {s t : Progress F} {d : Bool}
      → LevelRun price ns s t ns' d
      → order_at a ns ≡ none
      → order_at a ns' ≡ none
  level_at a end h = h
  level_at a (skip {n = n} {ns = ns} {ns' = ns'} e r) h =
      let (x, y) = order_at_cons a n ns h in order_at_join a n ns' x (level_at a r y)
  level_at a {price} (stop {n = n} {ns = ns} {s = s} g z) h =
      let (x, y) = order_at_cons a n ns h in left_at a price n s ns g x y
  level_at a {price} (next {n = n} {ns = ns} {ns' = ns'} {s = s} g z r) h =
      let (x, y) = order_at_cons a n ns h in left_at a price n s ns' g x (level_at a r y)

  left_apart :
      (price : F) (n : Node F) (s : Progress F) (ns : List (Node F))
      → (filling price n s).status ≢ skipped
      → order_at n.addr ns ≡ none
      → LevelApart ns
      → LevelApart (left price n s ++ ns)
  left_apart price n s ns g e h = elim (trade_cases price n s g) [
    | inl (o, l, id, i) ↦ rw l (e, h)
    | inr (l, i) ↦ rw l h
  ]

  level_apart :
      {price : F} {ns ns' : List (Node F)} {s t : Progress F} {d : Bool}
      → LevelRun price ns s t ns' d
      → LevelApart ns
      → LevelApart ns'
  level_apart end h = h
  level_apart (skip {n = n} e r) (x, h) = (level_at n.addr r x, level_apart r h)
  level_apart {price} (stop {n = n} {ns = ns} {s = s} g z) (x, h) = left_apart price n s ns g x h
  level_apart {price} (next {n = n} {ns' = ns'} {s = s} g z r) (x, h) =
      left_apart price n s ns' g (level_at n.addr r x) (level_apart r h)

  left-Away :
      (price : F) (n : Node F) (s : Progress F) (ns : List (Node F)) (b : Book F)
      → (filling price n s).status ≢ skipped
      → deref n.addr b ≡ none
      → Away ns b
      → Away (left price n s ++ ns) b
  left-Away price n s ns b g e h = elim (trade_cases price n s g) [
    | inl (o, l, id, i) ↦ rw l (e, h)
    | inr (l, i) ↦ rw l h
  ]

  level-Away :
      {price : F} {ns ns' : List (Node F)} {s t : Progress F} {d : Bool} (b : Book F)
      → LevelRun price ns s t ns' d
      → Away ns b
      → Away ns' b
  level-Away b end h = h
  level-Away b (skip e r) (x, h) = (x, level-Away b r h)
  level-Away {price} b (stop {n = n} {ns = ns} {s = s} g z) (x, h) = left-Away price n s ns b g x h
  level-Away {price} b (next {n = n} {ns' = ns'} {s = s} g z r) (x, h) =
      left-Away price n s ns' b g x (level-Away b r h)

  pub book_at :
      (a : ℕ) {cmp : F → F → Bool} {limit : F} {side : Side} {b b' : Book F} {s t : Progress F}
      {e : Ending}
      → BookRun cmp limit side b s t b' e
      → deref a b ≡ none
      → deref a b' ≡ none
  book_at a end h = h
  book_at a (break beyond) h = h
  book_at a (block within shut) h = h
  book_at a (finish {l = l} {b = b} within op r) h =
      let (x, y) = deref_cons a l b h in deref_join a _ b (level_at a r x) y
  book_at a (descend {l = l} {b = b} {b' = b'} within op r q) h =
      let (x, y) = deref_cons a l b h in deref_join a _ b' (level_at a r x) (book_at a q y)

  Away-at :
      {cmp : F → F → Bool} {limit : F} {side : Side} {b b' : Book F} {s t : Progress F} {e : Ending}
      (ns : List (Node F))
      → BookRun cmp limit side b s t b' e
      → Away ns b
      → Away ns b'
  Away-at [] r h = tt
  Away-at (n ∷ ns) r (x, h) = (book_at n.addr r x, Away-at ns r h)

  pub book_apart :
      {cmp : F → F → Bool} {limit : F} {side : Side} {b b' : Book F} {s t : Progress F} {e : Ending}
      → BookRun cmp limit side b s t b' e
      → BookApart b
      → BookApart b'
  book_apart end h = h
  book_apart (break beyond) h = h
  book_apart (block within shut) h = h
  book_apart (finish {b = b} within op r) (x, y, h) = (level_apart r x, level-Away b r y, h)
  book_apart (descend {b = b} {ns = ns} within op r q) (x, y, h) =
      (level_apart r x, Away-at ns q (level-Away b r y), book_apart q h)
