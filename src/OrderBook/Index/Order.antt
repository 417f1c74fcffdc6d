-- ===== src/OrderBook/Index/Order.antt =====
-- The prices of a book stay in order.
use fix4_2_protocol.Base.{Bool, true, false, ◌≡◌, inl, inr, [], ◌∷◌}
use fix4_2_protocol.Core.Enum.{Side}
use fix4_2_protocol.Core.Float.{Float}
use fix4_2_protocol.OrderBook.{Freed, Node, Book}
use fix4_2_protocol.OrderBook.Match.{Progress, Ending}
use fix4_2_protocol.OrderBook.Match.Run.{BookRun, end, break, block, finish, descend}
use fix4_2_protocol.OrderBook.Store.{push_back}
use fix4_2_protocol.OrderBook.Index.{Later, Sorted}
use fix4_2_protocol.OrderBook.Index.Insert.{push_cases}

module _ {F : Type 0} ⦃fl : Float F⦄ ⦃fr : Freed F⦄ (before : F → F → Bool) where
  run-Later :
      (p : F) {cmp : F → F → Bool} {limit : F} {side : Side} {b b' : Book F} {s t : Progress F}
      {e : Ending}
      → BookRun cmp limit side b s t b' e
      → Later before p b
      → Later before p b'
  run-Later p end h = h
  run-Later p (break beyond) h = h
  run-Later p (block within shut) h = h
  run-Later p (finish within op r) h = h
  run-Later p (descend within op r q) (x, h) = (x, run-Later p q h)

  -- Matching leaves every level at its price.
  pub run-Sorted :
      {cmp : F → F → Bool} {limit : F} {side : Side} {b b' : Book F} {s t : Progress F} {e : Ending}
      → BookRun cmp limit side b s t b' e
      → Sorted before b
      → Sorted before b'
  run-Sorted end h = h
  run-Sorted (break beyond) h = h
  run-Sorted (block within shut) h = h
  run-Sorted (finish within op r) h = h
  run-Sorted (descend {l = l} within op r q) (x, h) = (run-Later l.price q x, run-Sorted q h)

module _ {F : Type 0} (before : F → F → Bool)
    (connex : (a b : F) → before a b ≡ false → before b a ≡ false → a ≡ b)
    (trans : (a b c : F) → before a b ≡ true → before b c ≡ true → before a c ≡ true) (p : F)
    (n : Node F) where
  push_back-Later :
      (q : F) (b : Book F)
      → before q p ≡ true
      → Later before q b
      → Later before q (push_back before p n b)
  unfolding push_back
  push_back-Later q [] h w = (h, tt)
  push_back-Later q (l ∷ b) h (x, w) = elim (push_cases before connex p n l b) [
    | inl (e, _) ↦ rw e (x, push_back-Later q b h w)
    | inr (inl (e, _)) ↦ rw e (h, (x, w))
    | inr (inr (e, same)) ↦ rw e (h, w)
  ]

  after_all : (q r : F) (b : Book F) → before q r ≡ true → Later before r b → Later before q b
  after_all q r [] h w = tt
  after_all q r (l ∷ b) h (x, w) = (trans q r l.price h x, after_all q r b h w)

  -- A new order goes to the level of its price, or to a new level in its place.
  pub push_back-Sorted : (b : Book F) → Sorted before b → Sorted before (push_back before p n b)
  unfolding push_back
  push_back-Sorted [] w = (tt, tt)
  push_back-Sorted (l ∷ b) (x, w) = elim (push_cases before connex p n l b) [
    | inl (e, earlier) ↦ rw e (push_back-Later l.price b earlier x, push_back-Sorted b w)
    | inr (inl (e, later)) ↦ rw e ((later, after_all p l.price b later x), (x, w))
    | inr (inr (e, same)) ↦ rw e (rw same at x, w)
  ]
