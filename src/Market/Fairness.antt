-- ===== src/Market/Fairness.antt =====
-- Every run of a market: what stays well-formed, and the order in which inputs are served.
use fix4_2_protocol.Base.{Str, List, ◌++◌, ◌⊎◌, inl, inr, append_assoc, append-nil, sym}
use fix4_2_protocol.Core.Float.{Float, IsLinear}
use fix4_2_protocol.OrderBook.{Freed, Unchanged}
use fix4_2_protocol.Market.{Market}
use fix4_2_protocol.Market.Checks.{IsSafe}
use fix4_2_protocol.Market.Step.{Run, rest, step}
use fix4_2_protocol.Market.Tickets.{
  Less, Less-same, Less-trans, Less-append, Less-after, Less-widen, TakenBack, Step-Less,
}
use fix4_2_protocol.Market.Safety.{moved-IsSafe}

-- Two stretches of a run, with the tickets served and given in each.
join_order :
    {P : Str → Type 0} (s s' q q' q'' g g' : List Str)
    → Less P (s ++ q') (q ++ g)
    → Less P (s' ++ q'') (q' ++ g')
    → Less P ((s ++ s') ++ q'') (q ++ (g ++ g'))
join_order {P} s s' q q' q'' g g' h k =
    let right : Less P (s ++ (s' ++ q'')) (s ++ (q' ++ g')) = Less-append s k in
    let left : Less P ((s ++ q') ++ g') ((q ++ g) ++ g') = Less-after g' h in
    rw (append_assoc s s' q'', sym (append_assoc q g g'))
      (Less-trans left (rw (append_assoc s q' g') right))

module _ {F : Type 0} ⦃fl : Float F⦄ ⦃fr : Freed F⦄ (lin : IsLinear fl) (still : Unchanged fr) where
  -- Every market that a well-formed market reaches, over prices that compare as on a line, and where freed objects still read as they were, is well-formed:
  -- whatever the router delivers, and in whatever order the units and the workers take their steps, the
  -- order book keeps its index and the order of its prices, and only inputs that passed the checks wait for
  -- the workers.
  pub reached-IsSafe : {m m' : Market F} {g s : List Str} → IsSafe m → Run m g s m' → IsSafe m'
  reached-IsSafe v rest = v
  reached-IsSafe v (step a r) = reached-IsSafe (moved-IsSafe lin still v a) r

module _ {F : Type 0} ⦃fl : Float F⦄ ⦃fr : Freed F⦄ where
  -- Some step of a run takes a ticket back.
  abbrev pub RunTakenBack : {m m' : Market F} {g s : List Str} → Run m g s m' → Str → Type 0
  RunTakenBack rest x = ⊥
  RunTakenBack (step a r) x = TakenBack a x ⊎ RunTakenBack r x

  -- In every run of a market, the workers serve inputs in the order of their tickets: the tickets served,
  -- followed by those still waiting, are those that waited at the start followed by those given, in their order, less some
  -- that steps of the run have taken back: the check of an order that is not let pass whole, or of a cancel request that
  -- is not handed on to the worker.
  pub reached_in_order :
      {m m' : Market F} {g s : List Str} (r : Run m g s m')
      → Less (RunTakenBack r) (s ++ m'.mutex.queue) (m.mutex.queue ++ g)
  reached_in_order {m} rest = rw (append-nil m.mutex.queue) (Less-same m.mutex.queue)
  reached_in_order {m} {m'} (step {n = n} {g = g} {g' = g'} {s = s} {s' = s'} a r) =
      join_order s s' m.mutex.queue n.mutex.queue m'.mutex.queue g g'
        (Less-widen (λ x h. inl h) (Step-Less a)) (Less-widen (λ x h. inr h) (reached_in_order r))
