-- ===== src/OrderBook/Match/Quantity.antt =====
-- Quantities through a match: what the incoming order gets is what the resting orders lose.
use fix4_2_protocol.Base.{
  ℕ, ◌+◌, ◌-◌, ◌≤◌, true, ◌≡◌, ◌≢◌, ◌⊎◌, inl, inr, ap, ◌∙◌, List, [], ◌∷◌, ◌++◌, arith,
  if◌then◌else◌, Bool-cases, ltb, ◌==◌,
}
use fix4_2_protocol.Core.Float.{Float, IsExact, whole_limit, min}
use fix4_2_protocol.Core.Order.{Order}
use fix4_2_protocol.OrderBook.{Freed, Node, Book, Event}
use fix4_2_protocol.OrderBook.Match.{Progress, skipped, fill_order, traded, kept}
use fix4_2_protocol.OrderBook.Match.Run.{filling, left}

module _ {F : Type 0} (num : ℕ → F) (whole : F → ℕ) where
  -- A quantity that is a whole number up to 2 ^ 24.
  pub record IsWhole (q : F) : Type 0 where
    pub exact : q ≡ num (whole q)
    pub small : whole q ≤ whole_limit

  abbrev pub AllWhole : List (Node F) → Type 0
  AllWhole [] = Unit {0}
  AllWhole (n ∷ ns) = IsWhole n.order.remain_qty × AllWhole ns

  abbrev pub BookWhole : Book F → Type 0
  BookWhole [] = Unit {0}
  BookWhole (l ∷ b) = AllWhole l.orders × BookWhole b

-- What is left to fill of all the orders of a level, and of a book.
abbrev pub stock : {F : Type 0} → (F → ℕ) → List (Node F) → ℕ
stock whole [] = 0
stock whole (n ∷ ns) = whole n.order.remain_qty + stock whole ns

abbrev pub book_stock : {F : Type 0} → (F → ℕ) → Book F → ℕ
book_stock whole [] = 0
book_stock whole (l ∷ b) = stock whole l.orders + book_stock whole b

-- What the events say was traded.
abbrev pub volume : {F : Type 0} → (F → ℕ) → List (Event F) → ℕ
volume whole [] = 0
volume whole (e ∷ es) = whole e.last_qty + volume whole es

volume-append :
    {F : Type 0} (whole : F → ℕ) (xs ys : List (Event F))
    → volume whole (xs ++ ys) ≡ volume whole xs + volume whole ys
volume-append whole [] ys = omega arith
volume-append whole (x ∷ xs) ys = omega (arith, volume-append whole xs ys)

pub stock-append :
    {F : Type 0} (whole : F → ℕ) (xs ys : List (Node F))
    → stock whole (xs ++ ys) ≡ stock whole xs + stock whole ys
stock-append whole [] ys = omega arith
stock-append whole (x ∷ xs) ys = omega (arith, stock-append whole xs ys)

module _ {F : Type 0} ⦃fl : Float F⦄ ⦃fr : Freed F⦄ (price : F) (n : Node F) (s : Progress F) where
  -- The quantity of a trade.
  abbrev pub fill : F
  fill = min n.order.remain_qty s.main.order.remain_qty

  main_remain :
      (filling price n s).status ≢ skipped
      → (filling price n s).main.order.remain_qty ≡ fl.sub s.main.order.remain_qty fill
  unfolding fill_order
  main_remain h = ground arith

  pushed_volume :
      (whole : F → ℕ)
      → (filling price n s).status ≢ skipped
      → volume whole (filling price n s).pushed ≡ whole fill + 0
  unfolding fill_order
  pushed_volume whole h = ground arith

  left_cases :
      (filling price n s).status ≢ skipped
      → ((left price n s ≡ []) × (fl.eq (fl.sub n.order.remain_qty fill) fl.zero ≡ true))
        ⊎ ((o : Order F) × (left price n s ≡ record n { order = o } ∷ [])
            × (o.remain_qty ≡ fl.sub n.order.remain_qty fill))
  unfolding fill_order kept
  left_cases h = elim (Bool-cases (fl.eq (fl.sub n.order.remain_qty fill) fl.zero)) [
    | inl z ↦ inl (ground arith, z)
    | inr z ↦ inr ((filling price n s).order, ground arith, ground arith)
  ]

module _ {F : Type 0} ⦃fl : Float F⦄ ⦃fr : Freed F⦄ (num : ℕ → F) (whole : F → ℕ)
    (ex : IsExact fl num whole) where
  whole_of : (q : F) (n : ℕ) → n ≤ whole_limit → q ≡ num n → IsWhole num whole q × (whole q ≡ n)
  whole_of q n h e =
      let back : whole q ≡ n = rw e (ex.whole_num n h) in
      (record { exact = rw back e; small = rw back h }, back)

  lt_whole :
      (a b : F) → IsWhole num whole a → IsWhole num whole b → fl.lt a b ≡ ltb (whole a) (whole b)
  lt_whole a b ha hb =
      ap (λ x. fl.lt x b) ha.exact
      ∙ ap (λ x. fl.lt (num (whole a)) x) hb.exact
      ∙ ex.lt_num (whole a) (whole b) ha.small hb.small

  eq_zero : (a : F) → IsWhole num whole a → fl.eq a fl.zero ≡ (whole a == 0)
  eq_zero a ha =
      ap (λ x. fl.eq x fl.zero) ha.exact
      ∙ ap (λ x. fl.eq (num (whole a)) x) ex.num_zero
      ∙ ex.eq_num (whole a) 0 ha.small (omega arith)

  min_whole :
      (a b : F)
      → IsWhole num whole a
      → IsWhole num whole b
      → IsWhole num whole (min a b)
        × (whole (min a b) ≡ (if ltb (whole b) (whole a) then whole b else whole a))
  min_whole a b ha hb = elim (Bool-cases (fl.lt b a)) [
    | inl e ↦ rw e (hb, ground (arith, lt_whole b a hb ha))
    | inr e ↦ rw e (ha, ground (arith, lt_whole b a hb ha))
  ]

  sub_whole :
      (a b : F)
      → IsWhole num whole a
      → IsWhole num whole b
      → whole b ≤ whole a
      → IsWhole num whole (fl.sub a b) × (whole (fl.sub a b) ≡ whole a - whole b)
  sub_whole a b ha hb h = whole_of (fl.sub a b) (whole a - whole b) (omega (arith, ha.small)) (
      ap (λ x. fl.sub x b) ha.exact
      ∙ ap (λ x. fl.sub (num (whole a)) x) hb.exact
      ∙ ex.sub_num (whole a) (whole b) ha.small h)

  -- One trade moves one quantity from the resting order to the incoming one and to the events.
  pub record Moved (price : F) (n : Node F) (s : Progress F) : Type 0 where
    pub remain : IsWhole num whole (traded price n s).main.order.remain_qty
    pub rest : AllWhole num whole (left price n s)
    pub taken :
        stock whole (left price n s) + whole s.main.order.remain_qty
        ≡ whole n.order.remain_qty + whole (traded price n s).main.order.remain_qty
    pub told :
        volume whole (traded price n s).output + whole (traded price n s).main.order.remain_qty
        ≡ volume whole s.output + whole s.main.order.remain_qty

  pub trade_Moved :
      (price : F) (n : Node F) (s : Progress F)
      → IsWhole num whole n.order.remain_qty
      → IsWhole num whole s.main.order.remain_qty
      → (filling price n s).status ≢ skipped
      → Moved price n s
  unfolding traded
  trade_Moved price n s ho hm h =
      let (hf, f) = min_whole n.order.remain_qty s.main.order.remain_qty ho hm in
      let (hm', m') =
        sub_whole s.main.order.remain_qty (fill price n s) hm hf (ground (arith, f)) in
      let (ho', o') = sub_whole n.order.remain_qty (fill price n s) ho hf (ground (arith, f)) in
      let e = main_remain price n s h in
      let v = volume-append whole s.output (filling price n s).pushed in
      let w = pushed_volume price n s whole h in
      record {
        remain = rw e hm';
        rest = elim (left_cases price n s h) [
          | inl (none', z) ↦ rw none' tt
          | inr (o, one, r) ↦ rw (one, r) (ho', tt)
        ];
        taken = elim (left_cases price n s h) [
          | inl (none', z) ↦ rw (none', e) (ground (arith, f, o', m', eq_zero _ ho'))
          | inr (o, one, r) ↦ rw (one, e) (rw r (ground (arith, f, o', m')))
        ];
        told = rw (e, v, w) (ground (arith, f, m'));
      }
