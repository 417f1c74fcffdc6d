-- ===== src/OrderBook/Match/Conservation.antt =====
-- Quantities over the whole match.
use fix4_2_protocol.Base.{ℕ, ◌+◌, ◌≡◌, refl, List, [], ◌∷◌, ◌++◌, Bool, arith}
use fix4_2_protocol.Core.Enum.{Side}
use fix4_2_protocol.Core.Float.{Float, IsExact}
use fix4_2_protocol.OrderBook.{Freed, Node, Book}
use fix4_2_protocol.OrderBook.Match.{Progress, Ending, fill_book}
use fix4_2_protocol.OrderBook.Match.Quantity.{
  IsWhole, AllWhole, BookWhole, stock, book_stock, volume, stock-append, trade_Moved,
}
use fix4_2_protocol.OrderBook.Match.Run.{
  LevelRun, BookRun, left, book_run, end, skip, stop, next, break, block, finish, descend,
}

module _ {F : Type 0} ⦃fl : Float F⦄ ⦃fr : Freed F⦄ (num : ℕ → F) (whole : F → ℕ)
    (ex : IsExact fl num whole) where
  abbrev remain : Progress F → ℕ
  remain s = whole s.main.order.remain_qty

  abbrev WholeRemain : Progress F → Type 0
  WholeRemain s = IsWhole num whole s.main.order.remain_qty

  -- From a stock k and the state s to a stock k' and the state t.
  abbrev Balance : ℕ → Progress F → ℕ → Progress F → Type 0
  Balance k s k' t =
      (k' + remain s ≡ k + remain t)
      × (volume whole t.output + remain t ≡ volume whole s.output + remain s)

  AllWhole-append :
      (ms ns : List (Node F))
      → AllWhole num whole ms
      → AllWhole num whole ns
      → AllWhole num whole (ms ++ ns)
  AllWhole-append [] ns _ h = h
  AllWhole-append (m ∷ ms) ns (hm, hms) h = (hm, AllWhole-append ms ns hms h)

  level-Balance :
      {price : F} {ns ns' : List (Node F)} {s t : Progress F} {d : Bool}
      → LevelRun price ns s t ns' d
      → AllWhole num whole ns
      → WholeRemain s
      → AllWhole num whole ns' × WholeRemain t × Balance (stock whole ns) s (stock whole ns') t
  level-Balance end hs hm = (hs, hm, (refl, refl))
  level-Balance (skip e r) (hn, hs) hm =
      let (hs', ht, b) = level-Balance r hs hm in ((hn, hs'), ht, (omega (arith, b.0), b.1))
  level-Balance {price} (stop {n = n} {ns = ns} {s = s} h z) (hn, hs) hm =
      let m = trade_Moved num whole ex price n s hn hm h in
      (
        AllWhole-append (left price n s) ns m.rest hs,
        m.remain,
        (omega (arith, m.taken, stock-append whole (left price n s) ns), m.told),
      )
  level-Balance {price} {ns' = out} (next {n = n} {ns' = ns'} {s = s} h z r) (hn, hs) hm =
      let m = trade_Moved num whole ex price n s hn hm h in
      let (hs', ht, b) = level-Balance r hs m.remain in
      (
        AllWhole-append (left price n s) ns' m.rest hs',
        ht,
        (
          omega (arith, b.0, m.taken, stock-append whole (left price n s) ns'),
          omega (arith, b.1, m.told),
        ),
      )

  book-Balance :
      {cmp : F → F → Bool} {limit : F} {side : Side} {b b' : Book F} {s t : Progress F} {e : Ending}
      → BookRun cmp limit side b s t b' e
      → BookWhole num whole b
      → WholeRemain s
      → BookWhole num whole b'
        × WholeRemain t
        × Balance (book_stock whole b) s (book_stock whole b') t
  book-Balance end hb hm = (hb, hm, (refl, refl))
  book-Balance (break beyond) hb hm = (hb, hm, (refl, refl))
  book-Balance (block within shut) hb hm = (hb, hm, (refl, refl))
  book-Balance (finish within op r) (hl, hb) hm =
      let (hl', ht, c) = level-Balance r hl hm in ((hl', hb), ht, (omega (arith, c.0), c.1))
  book-Balance (descend within op r q) (hl, hb) hm =
      let (hl', ht, c) = level-Balance r hl hm in
      let (hb', hu, c') = book-Balance q hb ht in
      ((hl', hb'), hu, (omega (arith, c.0, c'.0), omega (arith, c.1, c'.1)))

  -- A match moves quantities and makes none: what the resting orders of the book lose is what the incoming
  -- order is filled, and what the new events report; and quantities stay whole numbers. The hypotheses
  -- are that all quantities are whole numbers up to 2 ^ 24, on which floats are exact.
  pub fill_book-Balance :
      (cmp : F → F → Bool) (limit : F) (side : Side) (b : Book F) (s : Progress F)
      → BookWhole num whole b
      → WholeRemain s
      → BookWhole num whole (fill_book cmp limit side b s).1
        × WholeRemain (fill_book cmp limit side b s).0
        × Balance
            (book_stock whole b)
            s
            (book_stock whole (fill_book cmp limit side b s).1)
            (fill_book cmp limit side b s).0
  fill_book-Balance cmp limit side b s hb hm = book-Balance (book_run cmp limit side b s) hb hm
