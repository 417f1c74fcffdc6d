-- ===== src/OrderBook/Index/Run.antt =====
-- Matching keeps the index: what it takes from a list it takes from the id map.
use fix4_2_protocol.Base.{
  Str, str_eq, str_eq_iff, Bool, ◌≡◌, ◌≢◌, ◌⊎◌, inl, inr, refl, none, List, [], ◌∷◌, ◌++◌, arith,
  if◌then◌else◌, Bool-cases,
}
use fix4_2_protocol.Core.Float.{Float}
use fix4_2_protocol.OrderBook.{Freed, Unchanged, Node, OrderIdInfo, OrderIdMap}
use fix4_2_protocol.OrderBook.Match.{Progress, skipped, fill_order, traded, kept, ids_after}
use fix4_2_protocol.Core.Order.{Order}
use fix4_2_protocol.OrderBook.Match.Quantity.{fill}
use fix4_2_protocol.OrderBook.Match.Run.{LevelRun, filling, left, end, skip, stop, next}
use fix4_2_protocol.OrderBook.Store.{find, find-erase, contains-find, remove_from_id_map}
use fix4_2_protocol.OrderBook.Index.{level_index, Distinct}

module _ {F : Type 0} where
  -- From the map m and the entries e to the map n and the entries f, at the key k: both are as they were, or the key
  -- is gone from both.
  abbrev pub Follows : Str → OrderIdMap F → OrderIdMap F → OrderIdMap F → OrderIdMap F → Type 0
  Follows k m e n f =
      ((find k n ≡ find k m) × (find k f ≡ find k e))
      ⊎ ((find k n ≡ none) × (find k f ≡ none) × (find k e ≢ none))

  pub find-remove_from_id_map :
      (k id : Str) (m : OrderIdMap F)
      → find k (remove_from_id_map m id).0 ≡ (if str_eq id k then none else find k m)
  unfolding remove_from_id_map
  find-remove_from_id_map k id m =
      ground (arith, find-erase k id m, contains-find id m, str_eq_iff id k)

  pub level_index_append :
      (price : F) (ms ns : List (Node F))
      → level_index price (ms ++ ns) ≡ level_index price ms ++ level_index price ns
  level_index_append price [] ns = refl
  level_index_append price (m ∷ ms) ns = cc (level_index_append price ms ns)

module _ {F : Type 0} (k i : Str) (v : OrderIdInfo F) (m e n f : OrderIdMap F)
    (once : find i e ≡ none) where
  kept-Follows : Follows k m e n f → Follows k m ((i, v) ∷ e) n ((i, v) ∷ f)
  unfolding find
  kept-Follows h = ground (arith, str_eq_iff i k)

  gone-Follows : Follows k (remove_from_id_map m i).0 e n f → Follows k m ((i, v) ∷ e) n f
  unfolding find
  gone-Follows h = ground (arith, str_eq_iff i k, find-remove_from_id_map k i m)

module _ {F : Type 0} ⦃fl : Float F⦄ ⦃fr : Freed F⦄ where
  pub same : (k : Str) (m e : OrderIdMap F) → Follows k m e m e
  same k m e = inl (refl, refl)

  -- A trade leaves the node with its id, and the id map alone, or takes the node from the list and its id from
  -- the map.
  pub trade_cases :
      (price : F) (n : Node F) (s : Progress F)
      → (filling price n s).status ≢ skipped
      → ((o : Order F) × (left price n s ≡ record n { order = o } ∷ [])
          × (o.order_id ≡ n.order.order_id)
          × ((traded price n s).ids ≡ s.ids))
        ⊎ ((left price n s ≡ [])
            × ((traded price n s).ids ≡ (remove_from_id_map s.ids (fr.id_read n.order.order_id)).0))
  unfolding traded fill_order kept ids_after
  trade_cases price n s h =
      elim (Bool-cases (fl.eq (fl.sub n.order.remain_qty (fill price n s)) fl.zero)) [
        | inl z ↦ inr (ground arith)
        | inr z ↦ inl ((filling price n s).order, ground arith, ground arith, ground arith)
      ]

  module _ (still : Unchanged fr) where
    trade-Follows :
        (k : Str) (price : F) (n : Node F) (s : Progress F) (ns ns' : List (Node F))
        (ids : OrderIdMap F)
        → (filling price n s).status ≢ skipped
        → find n.order.order_id (level_index price ns) ≡ none
        → Follows k (traded price n s).ids (level_index price ns) ids (level_index price ns')
        → Follows k s.ids
            (level_index price (n ∷ ns))
            ids
            (level_index price (left price n s ++ ns'))
    trade-Follows k price n s ns ns' ids g once h =
        rw (level_index_append price (left price n s) ns') (elim (trade_cases price n s g) [
          | inl (o, l, id, i) ↦
              rw (l, id) (kept-Follows k n.order.order_id _ _ _ _ _ once (rw i at h))
          | inr (l, i) ↦ rw l (
              gone-Follows k n.order.order_id _ _ _ _ _ once
                (rw (i, still.id_same n.order.order_id) at h))
        ])

    trade-Distinct :
        (price : F) (n : Node F) (s : Progress F) (ns : List (Node F))
        → (filling price n s).status ≢ skipped
        → find n.order.order_id (level_index price ns) ≡ none
        → Distinct (level_index price ns)
        → Distinct (level_index price (left price n s ++ ns))
    trade-Distinct price n s ns g once h = elim (trade_cases price n s g) [
      | inl (o, l, id, i) ↦ rw (l, id) (once, h)
      | inr (l, i) ↦ rw l h
    ]

    pub level-Follows :
        (k : Str) {price : F} {ns ns' : List (Node F)} {s t : Progress F} {d : Bool}
        → LevelRun price ns s t ns' d
        → Distinct (level_index price ns)
        → Follows k s.ids (level_index price ns) t.ids (level_index price ns')
    level-Follows k end h = inl (refl, refl)
    level-Follows k (skip {n = n} e r) (once, h) =
        kept-Follows k n.order.order_id _ _ _ _ _ once (level-Follows k r h)
    level-Follows k {price} (stop {n = n} {ns = ns} {s = s} g z) (once, h) =
        trade-Follows k price n s ns ns _ g once (same k _ _)
    level-Follows k {price} (next {n = n} {ns = ns} {ns' = ns'} {s = s} {t = t} g z r) (once, h) =
        trade-Follows k price n s ns ns' t.ids g once (level-Follows k r h)

    pub absent :
        (k : Str) (m e n f : OrderIdMap F) → Follows k m e n f → find k e ≡ none → find k f ≡ none
    absent k m e n f h none' = ground arith

    pub level-Distinct :
        {price : F} {ns ns' : List (Node F)} {s t : Progress F} {d : Bool}
        → LevelRun price ns s t ns' d
        → Distinct (level_index price ns)
        → Distinct (level_index price ns')
    level-Distinct end h = h
    level-Distinct (skip {n = n} e r) (once, h) = (
      absent n.order.order_id _ _ _ _ (level-Follows n.order.order_id r h) once,
      level-Distinct r h,
    )
    level-Distinct {price} (stop {n = n} {ns = ns} {s = s} g z) (once, h) =
        trade-Distinct price n s ns g once h
    level-Distinct {price} (next {n = n} {ns' = ns'} {s = s} g z r) (once, h) =
        trade-Distinct price n s ns' g
          (absent n.order.order_id _ _ _ _ (level-Follows n.order.order_id r h) once)
          (level-Distinct r h)
