-- ===== src/OrderBook/Match/Cleared.antt =====
-- What an incoming order leaves of the book of the other side.
use fix4_2_protocol.Base.{Str, Bool, false, ◌≡◌, ◌≢◌, refl, ◌∙◌, List, [], arith}
use fix4_2_protocol.Core.Enum.{Side}
use fix4_2_protocol.Core.Float.{Float, SubSelf}
use fix4_2_protocol.OrderBook.{Freed, Node, Book}
use fix4_2_protocol.OrderBook.Match.{
  Progress, skipped, Ending, exhausted, fill_order, fill_book, traded, kept,
}
use fix4_2_protocol.OrderBook.Match.Priority.{foreign, queue, level_user, user-traded, own, user}
use fix4_2_protocol.OrderBook.Match.Run.{
  LevelRun, BookRun, filling, left, book_run, end, skip, stop, next, break, block, finish, descend,
}

module _ {F : Type 0} ⦃fl : Float F⦄ ⦃fr : Freed F⦄ (sub_self : SubSelf fl) where
  -- A resting order is used up if the incoming one is not.
  left_nil :
      (price : F) (n : Node F) (s : Progress F)
      → (filling price n s).status ≢ skipped
      → fl.eq (traded price n s).main.order.remain_qty fl.zero ≡ false
      → left price n s ≡ []
  unfolding fill_order traded kept
  left_nil price n s h z =
      ground (arith, sub_self n.order.remain_qty, sub_self s.main.order.remain_qty)

  level_cleared :
      (v : Str) {price : F} {ns ns' : List (Node F)} {s t : Progress F} {d : Bool}
      → LevelRun price ns s t ns' d
      → user s ≡ v
      → d ≡ false
      → foreign v price ns' ≡ []
  level_cleared v end u e = refl
  level_cleared v {price} (skip {n = n} {s = s} o r) u e =
      rw (own v price n s u o) (level_cleared v r u e)
  level_cleared v (stop h z) u e = cc
  level_cleared v {price} (next {n = n} {s = s} h z r) u e =
      rw (left_nil price n s h z) (level_cleared v r (user-traded price n s ∙ u) e)

  book_cleared :
      (v : Str) {cmp : F → F → Bool} {limit : F} {side : Side} {b b' : Book F} {s t : Progress F}
      {e : Ending}
      → BookRun cmp limit side b s t b' e
      → user s ≡ v
      → e ≡ exhausted
      → queue cmp limit v b' ≡ []
  book_cleared v end u x = refl
  book_cleared v (break beyond) u x = rw beyond refl
  book_cleared v (block within shut) u x = cc
  book_cleared v (finish within op r) u x = cc
  book_cleared v (descend within op r q) u x =
      rw (within, level_cleared v r u refl) (book_cleared v q (level_user r ∙ u) x)

  -- Where the loops ended because the book has no further price within the limit, no order that the
  -- incoming one could still trade with is left: other users' orders up to the first price beyond the limit
  -- are gone. The hypothesis is that a quantity less itself is zero.
  pub fill_book_cleared :
      (cmp : F → F → Bool) (limit : F) (side : Side) (b : Book F) (s : Progress F)
      → (fill_book cmp limit side b s).2 ≡ exhausted
      → queue cmp limit s.main.order.user_id (fill_book cmp limit side b s).1 ≡ []
  fill_book_cleared cmp limit side b s h =
      book_cleared s.main.order.user_id (book_run cmp limit side b s) refl h
