-- ===== src/OrderBook/Match/Run.antt =====
-- The loops of `fillOnBook` as relations: the way they went, trade by trade. Every property of the
-- matching is an induction on these.
use fix4_2_protocol.Base.{
  Bool, true, false, not, ◌≡◌, ◌≢◌, ◌⊎◌, inl, inr, refl, List, [], ◌∷◌, ◌++◌, arith, if◌then◌else◌,
  Bool-cases,
}
use fix4_2_protocol.Core.Enum.{Side}
use fix4_2_protocol.Core.Float.{Float}
use fix4_2_protocol.OrderBook.{Freed, Node, Level, Book}
use fix4_2_protocol.OrderBook.Match.{
  Progress, Filling, FillStatus, filled, partialy_filled, skipped, Ending, complete, blocked,
  exhausted, fill_order, fill_level, fill_book, traded, kept, in_front, below,
}
use fix4_2_protocol.OrderBook.Tick.{allow_tick}

pub status_cases : (st : FillStatus) → (st ≡ skipped) ⊎ (st ≢ skipped)
status_cases skipped = inl refl
status_cases filled = inr (λ e. cc)
status_cases partialy_filled = inr (λ e. cc)

module _ {F : Type 0} ⦃fl : Float F⦄ ⦃fr : Freed F⦄ where
  abbrev pub filling : F → Node F → Progress F → Filling F
  filling price n s = fill_order s.main price n.order

  -- The node of an order that traded, unless it is filled.
  abbrev pub left : F → Node F → Progress F → List (Node F)
  left price n s = kept (filling price n s).status n (filling price n s).order

  pub data LevelRun (price : F)
      : List (Node F) → Progress F → Progress F → List (Node F) → Bool → Type 0 where
    end : {s : Progress F} → LevelRun price [] s s [] false
    skip :
        {n : Node F} {ns ns' : List (Node F)} {s t : Progress F} {d : Bool}
        → (filling price n s).status ≡ skipped
        → LevelRun price ns s t ns' d
        → LevelRun price (n ∷ ns) s t (n ∷ ns') d
    stop :
        {n : Node F} {ns : List (Node F)} {s : Progress F}
        → (filling price n s).status ≢ skipped
        → fl.eq (traded price n s).main.order.remain_qty fl.zero ≡ true
        → LevelRun price (n ∷ ns) s (traded price n s) (left price n s ++ ns) true
    next :
        {n : Node F} {ns ns' : List (Node F)} {s t : Progress F} {d : Bool}
        → (filling price n s).status ≢ skipped
        → fl.eq (traded price n s).main.order.remain_qty fl.zero ≡ false
        → LevelRun price ns (traded price n s) t ns' d
        → LevelRun price (n ∷ ns) s t (left price n s ++ ns') d

  fill_level_skip :
      (price : F) (n : Node F) (ns : List (Node F)) (s : Progress F)
      → (filling price n s).status ≡ skipped
      → fill_level price (n ∷ ns) s ≡ in_front (n ∷ []) (fill_level price ns s)
  unfolding fill_level
  fill_level_skip price n ns s e = rw (e, fill_level)

  fill_level_trade :
      (price : F) (n : Node F) (ns : List (Node F)) (s : Progress F)
      → (filling price n s).status ≢ skipped
      → fill_level price (n ∷ ns) s ≡ (
          if fl.eq (traded price n s).main.order.remain_qty fl.zero
          then (traded price n s, left price n s ++ ns, true)
          else in_front (left price n s) (fill_level price ns (traded price n s)))
  unfolding fill_level
  fill_level_trade price n ns s h = ground arith

  abbrev LevelRuns : F → List (Node F) → Progress F → Progress F × List (Node F) × Bool → Type 0
  LevelRuns price ns s r = LevelRun price ns s r.0 r.1 r.2

  fill_level_nil : (price : F) (s : Progress F) → fill_level price [] s ≡ (s, [], false)
  unfolding fill_level
  fill_level_nil price s = refl

  -- The loop over the orders of a price is such a run.
  pub level_run :
      (price : F) (ns : List (Node F)) (s : Progress F)
      → LevelRuns price ns s (fill_level price ns s)
  unfolding in_front
  level_run price [] s = rw (fill_level_nil price s) end
  level_run price (n ∷ ns) s =
      let passed : LevelRuns price ns s (fill_level price ns s) = level_run price ns s in
      let after : LevelRuns price ns (traded price n s) (fill_level price ns (traded price n s)) =
        level_run price ns (traded price n s) in
      elim (status_cases (filling price n s).status) [
        | inl e ↦ rw (fill_level_skip price n ns s e) (skip e passed)
        | inr h ↦
            rw (fill_level_trade price n ns s h)
              (elim (Bool-cases (fl.eq (traded price n s).main.order.remain_qty fl.zero)) [
                | inl z ↦ rw z (stop h z)
                | inr z ↦ rw z (next h z after)
              ])
      ]

  -- The state after the question whether the tick lets the side in.
  abbrev pub asked : Side → Progress F → Progress F
  asked side s = record s { ticks = (allow_tick side s.ticks).0 }

  pub data BookRun (cmp : F → F → Bool) (limit : F) (side : Side)
      : Book F → Progress F → Progress F → Book F → Ending → Type 0 where
    end : {s : Progress F} → BookRun cmp limit side [] s s [] exhausted
    break :
        {l : Level F} {b : Book F} {s : Progress F}
        → cmp l.price limit ≡ false
        → BookRun cmp limit side (l ∷ b) s s (l ∷ b) exhausted
    block :
        {l : Level F} {b : Book F} {s : Progress F}
        → cmp l.price limit ≡ true
        → (allow_tick side s.ticks).1 ≡ false
        → BookRun cmp limit side (l ∷ b) s (asked side s) (l ∷ b) blocked
    finish :
        {l : Level F} {b : Book F} {s t : Progress F} {ns : List (Node F)}
        → cmp l.price limit ≡ true
        → (allow_tick side s.ticks).1 ≡ true
        → LevelRun l.price l.orders (asked side s) t ns true
        → BookRun cmp limit side (l ∷ b) s t (record l { orders = ns } ∷ b) complete
    descend :
        {l : Level F} {b b' : Book F} {s t u : Progress F} {ns : List (Node F)} {e : Ending}
        → cmp l.price limit ≡ true
        → (allow_tick side s.ticks).1 ≡ true
        → LevelRun l.price l.orders (asked side s) t ns false
        → BookRun cmp limit side b t u b' e
        → BookRun cmp limit side (l ∷ b) s u (record l { orders = ns } ∷ b') e

  module _ (cmp : F → F → Bool) (limit : F) (side : Side) where
    fill_book_nil : (s : Progress F) → fill_book cmp limit side [] s ≡ (s, [], exhausted)
    unfolding fill_book
    fill_book_nil s = refl

    fill_book_cons :
        (l : Level F) (b : Book F) (s : Progress F)
        → fill_book cmp limit side (l ∷ b) s ≡ (
            let r = fill_level l.price l.orders (asked side s) in
            if not (cmp l.price limit)
            then (s, l ∷ b, exhausted)
            else if not (allow_tick side s.ticks).1
            then (asked side s, l ∷ b, blocked)
            else if r.2
            then (r.0, record l { orders = r.1 } ∷ b, complete)
            else below (record l { orders = r.1 }) (fill_book cmp limit side b r.0))
    unfolding fill_book
    fill_book_cons l b s = refl

    abbrev BookRuns : Book F → Progress F → Progress F × Book F × Ending → Type 0
    BookRuns b s r = BookRun cmp limit side b s r.0 r.1 r.2

    -- The loop over the prices is such a run.
    pub book_run : (b : Book F) (s : Progress F) → BookRuns b s (fill_book cmp limit side b s)
    unfolding below
    book_run [] s = rw (fill_book_nil s) end
    book_run (l ∷ b) s =
        let r = fill_level l.price l.orders (asked side s) in
        let level : LevelRuns l.price l.orders (asked side s) r =
          level_run l.price l.orders (asked side s) in
        let rest : BookRuns b r.0 (fill_book cmp limit side b r.0) = book_run b r.0 in
        rw (fill_book_cons l b s) (elim (Bool-cases (cmp l.price limit)) [
          | inl within ↦ rw within (elim (Bool-cases (allow_tick side s.ticks).1) [
            | inl open' ↦ rw open' (elim (Bool-cases r.2) [
              | inl done ↦ rw done (finish within open' (rw done at level))
              | inr more ↦ rw more (descend within open' (rw more at level) rest)
            ])
            | inr shut ↦ rw shut (block within shut)
          ])
          | inr beyond ↦ rw beyond (break beyond)
        ])
