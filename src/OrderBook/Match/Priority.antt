-- ===== src/OrderBook/Match/Priority.antt =====
-- Which resting orders an incoming order trades with, and in which order: price-time priority.
use mathlib.Core.List.{map, map-append}
use fix4_2_protocol.Base.{
  Str, str_eq, Bool, true, false, ◌≡◌, ◌≢◌, refl, sym, ap, ◌∙◌, List, [], ◌∷◌, ◌++◌, append_assoc,
  append-nil, arith, if◌then◌else◌,
}
use fix4_2_protocol.Core.Enum.{Side}
use fix4_2_protocol.Core.Float.{Float}
use fix4_2_protocol.OrderBook.{Freed, Node, Book, Event}
use fix4_2_protocol.OrderBook.Match.{
  Progress, skipped, Ending, exhausted, fill_order, fill_book, traded,
}
use fix4_2_protocol.OrderBook.Match.Run.{
  LevelRun, BookRun, filling, book_run, end, skip, stop, next, break, block, finish, descend,
}

-- The price and the order id of each event.
abbrev pub tags : {F : Type 0} → List (Event F) → List (F × Str)
tags = map (λ e. (e.last_price, e.order.order_id))

-- The orders of other users on one level, in the order of their arrival.
abbrev pub foreign : {F : Type 0} → Str → F → List (Node F) → List (F × Str)
foreign user price [] = []
foreign user price (n ∷ ns) =
    if str_eq n.order.user_id user
    then foreign user price ns
    else (price, n.order.order_id) ∷ foreign user price ns

-- The orders that an incoming order of the user may trade with: those of other users at the prices
-- within the limit, the best price first and the oldest order of a price first.
abbrev pub queue : {F : Type 0} → (F → F → Bool) → F → Str → Book F → List (F × Str)
queue cmp limit user [] = []
queue cmp limit user (l ∷ b) =
    if cmp l.price limit then foreign user l.price l.orders ++ queue cmp limit user b else []

module _ {A : Type 0} where
  extend :
      (ts rest more ss fs : List A)
      → ts ++ rest ≡ ss ++ fs
      → ts ++ (rest ++ more) ≡ ss ++ (fs ++ more)
  extend ts rest more ss fs e =
      sym (append_assoc ts rest more) ∙ ap (λ x. x ++ more) e ∙ append_assoc ss fs more

  chain :
      (us rest' ts rest ss fs more : List A)
      → us ++ rest' ≡ ts ++ more
      → ts ++ rest ≡ ss ++ fs
      → rest ≡ []
      → us ++ rest' ≡ ss ++ (fs ++ more)
  chain us rest' ts rest ss fs more e' e none_left =
      e'
      ∙ ap (λ x. x ++ more) (sym (append-nil ts) ∙ ap (λ x. ts ++ x) (sym none_left) ∙ e)
      ∙ append_assoc ss fs more

module _ {F : Type 0} ⦃fl : Float F⦄ ⦃fr : Freed F⦄ where
  abbrev pub user : Progress F → Str
  user s = s.main.order.user_id

  pub user-traded : (price : F) (n : Node F) (s : Progress F) → user (traded price n s) ≡ user s
  unfolding traded
  user-traded price n s = ground arith

  skipped_own :
      (price : F) (n : Node F) (s : Progress F)
      → (filling price n s).status ≡ skipped
      → str_eq n.order.user_id (user s) ≡ true
  unfolding fill_order
  skipped_own price n s h = ground arith

  traded_other :
      (price : F) (n : Node F) (s : Progress F)
      → (filling price n s).status ≢ skipped
      → str_eq n.order.user_id (user s) ≡ false
  unfolding fill_order
  traded_other price n s h = ground arith

  pushed_tags :
      (price : F) (n : Node F) (s : Progress F)
      → (filling price n s).status ≢ skipped
      → tags (filling price n s).pushed ≡ (price, n.order.order_id) ∷ []
  unfolding fill_order
  pushed_tags price n s h = ground arith

  tags-traded :
      (price : F) (n : Node F) (s : Progress F)
      → (filling price n s).status ≢ skipped
      → tags (traded price n s).output ≡ tags s.output ++ (price, n.order.order_id) ∷ []
  unfolding traded
  tags-traded price n s h =
      map-append _ s.output _ ∙ ap (λ x. tags s.output ++ x) (pushed_tags price n s h)

  pub own :
      (v : Str) (price : F) (n : Node F) (s : Progress F)
      → user s ≡ v
      → (filling price n s).status ≡ skipped
      → str_eq n.order.user_id v ≡ true
  own v price n s u e = rw u at (skipped_own price n s e)

  other :
      (v : Str) (price : F) (n : Node F) (s : Progress F)
      → user s ≡ v
      → (filling price n s).status ≢ skipped
      → str_eq n.order.user_id v ≡ false
  other v price n s u h = rw u at (traded_other price n s h)

  tags_cons :
      (v : Str) (price : F) (n : Node F) (ns : List (Node F)) (s : Progress F)
      → (filling price n s).status ≢ skipped
      → tags (traded price n s).output ++ foreign v price ns
        ≡ tags s.output ++ (price, n.order.order_id) ∷ foreign v price ns
  tags_cons v price n ns s h = rw (tags-traded price n s h, append_assoc) refl

  pub level_user :
      {price : F} {ns ns' : List (Node F)} {s t : Progress F} {d : Bool}
      → LevelRun price ns s t ns' d
      → user t ≡ user s
  level_user end = refl
  level_user (skip e r) = level_user r
  level_user {price} (stop {n = n} {s = s} h z) = user-traded price n s
  level_user {price} (next {n = n} {s = s} h z r) = level_user r ∙ user-traded price n s

  -- On one level the trades are with the first foreign orders, and with all of them unless the incoming order is
  -- filled there.
  level_tags :
      (v : Str) {price : F} {ns ns' : List (Node F)} {s t : Progress F} {d : Bool}
      → LevelRun price ns s t ns' d
      → user s ≡ v
      → (rest : List (F × Str)) × (tags t.output ++ rest ≡ tags s.output ++ foreign v price ns)
        × (d ≡ false → rest ≡ [])
  level_tags v end u = ([], refl, λ _. refl)
  level_tags v {price} (skip {n = n} {s = s} e r) u =
      let (rest, eq, all) = level_tags v r u in (rest, rw (own v price n s u e) eq, all)
  level_tags v {price} (stop {n = n} {ns = ns} {s = s} h z) u =
      (foreign v price ns, rw (other v price n s u h) (tags_cons v price n ns s h), λ e. cc)
  level_tags v {price} (next {n = n} {ns = ns} {s = s} h z r) u =
      let (rest, eq, all) = level_tags v r (user-traded price n s ∙ u) in
      (rest, rw (other v price n s u h) (eq ∙ tags_cons v price n ns s h), all)

  -- The trades over the whole book, for the user of the incoming order.
  book_tags :
      (v : Str) {cmp : F → F → Bool} {limit : F} {side : Side} {b b' : Book F} {s t : Progress F}
      {e : Ending}
      → BookRun cmp limit side b s t b' e
      → user s ≡ v
      → (rest : List (F × Str)) × (tags t.output ++ rest ≡ tags s.output ++ queue cmp limit v b)
        × (e ≡ exhausted → rest ≡ [])
  book_tags v end u = ([], refl, λ _. refl)
  book_tags v (break beyond) u = ([], rw beyond refl, λ _. refl)
  book_tags v {cmp} {limit} (block {l = l} {b = b} within shut) u =
      (queue cmp limit v (l ∷ b), refl, λ e. cc)
  book_tags v {cmp} {limit} (finish {l = l} {b = b} {s = s} {t = t} within op r) u =
      let (rest, eq, all) = level_tags v r u in
      (
        rest ++ queue cmp limit v b,
        rw within (extend (tags t.output) rest _ (tags s.output) (foreign v l.price l.orders) eq),
        λ e. cc,
      )
  book_tags v {cmp} {limit} (descend {l = l} {b = b} {s = s} {t = t} {u = u'} within op r q) u =
      let (rest, eq, all) = level_tags v r u in
      let (rest', eq', all') = book_tags v q (level_user r ∙ u) in
      (
        rest',
        rw within (
            chain (tags u'.output) rest' (tags t.output) rest (tags s.output) _ _ eq' eq
              (all refl)),
        all',
      )

  module _ (cmp : F → F → Bool) (limit : F) (side : Side) (b : Book F) (s : Progress F) where
    -- Price-time priority: the trades of an incoming order, by price and order id, are a front part of
    -- the queue of the orders that it may trade with: other users' orders within its limit, the best
    -- price first and at one price the oldest first, each at the price of its level.
    pub fill_book-queue :
        (rest : List (F × Str)) × (tags (fill_book cmp limit side b s).0.output ++ rest
          ≡ tags s.output ++ queue cmp limit s.main.order.user_id b)
    fill_book-queue =
        let (rest, eq, all) = book_tags s.main.order.user_id (book_run cmp limit side b s) refl in
        (rest, eq)

    -- Where the loops ended because the book has no further price within the limit, the incoming order
    -- has traded with that whole queue.
    pub fill_book_exhausted :
        (fill_book cmp limit side b s).2 ≡ exhausted
        → tags (fill_book cmp limit side b s).0.output
          ≡ tags s.output ++ queue cmp limit s.main.order.user_id b
    fill_book_exhausted h =
        let (rest, eq, all) = book_tags s.main.order.user_id (book_run cmp limit side b s) refl in
        let out = tags (fill_book cmp limit side b s).0.output in
        sym (append-nil out) ∙ ap (λ x. out ++ x) (sym (all h)) ∙ eq
