-- ===== src/Market/Router/System.antt =====
-- server/src/ProcessUnit/MarketRouter.cpp with the markets behind it: registrations, inputs of the router,
-- and steps of the markets' units and workers, in any order.
use fix4_2_protocol.Base.{
  ℕ, Str, str_eq, str_eq_iff, ◌≡◌, ◌≢◌, ◌⊎◌, inl, inr, refl, sym, ap, subst, ◌∙◌, Option-cases,
  some, List, [], ◌∷◌, ◌++◌, All-append, arith, Bool-cases,
}
use fix4_2_protocol.Core.Float.{Float}
use fix4_2_protocol.Message.Types.{NewOrderSingle, OrderCancelRequest}
use fix4_2_protocol.OrderBook.{Freed}
use fix4_2_protocol.Market.{Market, Input}
use fix4_2_protocol.Market.Step.{Step}
use fix4_2_protocol.Market.Router.{
  ParseError, Expected, UnparsedMessage, MarketRouter, at, modify, emplace, register_market,
  market_on_input,
}
use fix4_2_protocol.Market.Router.Delivery.{
  at-modify, at-modify_other, IsHandled, malformed, unknown, delivered, ticketed, ordered,
  requested, market_on_input-IsHandled,
}
use fix4_2_protocol.Market.Router.Addressed.{IsAddressed, OrderFor, CancelFor, moved-IsAddressed}

module _ {A : Type 0} where
  some-injective : (a b : A) → some a ≡ some b → a ≡ b
  some-injective a b h = cc

  at-append :
      (s t : Str) (a b : A) (xs : List (Str × A))
      → at t (xs ++ (s, a) ∷ []) ≡ some b
      → ((s ≡ t) × (a ≡ b)) ⊎ (at t xs ≡ some b)
  unfolding at
  at-append s t a b [] h = elim (Bool-cases (str_eq s t)) [
    | inl y ↦ inl ((str_eq_iff s t).0 y, some-injective a b (rw y at h))
    | inr n ↦ inr (rw n at h)
  ]
  at-append s t a b ((k, c) ∷ xs) h = elim (Bool-cases (str_eq k t)) [
    | inl y ↦ inr (rw y (rw y at h))
    | inr n ↦ rw n (at-append s t a b xs (rw n at h))
  ]

  at-emplace :
      (s t : Str) (a b : A) (xs : List (Str × A))
      → at t (emplace s a xs) ≡ some b
      → ((s ≡ t) × (a ≡ b)) ⊎ (at t xs ≡ some b)
  unfolding emplace
  at-emplace s t a b xs h = elim (Option-cases (at s xs)) [
    | inl e ↦ at-append s t a b xs (rw (emplace, e) at h)
    | inr (c, e) ↦ inr (rw (emplace, e) at h)
  ]

module _ {F M : Type 0} ⦃fl : Float F⦄ ⦃fr : Freed F⦄
    (new_order_from : M → Expected ParseError (NewOrderSingle F))
    (cancel_from : M → Expected ParseError (OrderCancelRequest F)) where
  -- A market steps without the router where the step gives no ticket.
  pub data SystemStep : MarketRouter F → MarketRouter F → Type 0 where
    registered :
        {r : MarketRouter F} (symbol : Str) (m : Market F)
        → IsAddressed symbol m
        → SystemStep r (register_market symbol m r)
    routed :
        {r : MarketRouter F} (id : Str) (i : UnparsedMessage M)
        → SystemStep r (market_on_input new_order_from cancel_from id i r)
    worked :
        {r : MarketRouter F} (symbol : Str) {m m' : Market F} {s : List Str}
        → at symbol r.markets ≡ some m
        → Step m [] s m'
        → SystemStep r (record r { markets = modify symbol (λ n. m') r.markets })

  pub data SystemRun : MarketRouter F → MarketRouter F → Type 0 where
    rest : {r : MarketRouter F} → SystemRun r r
    step : {r r' r'' : MarketRouter F} → SystemStep r r' → SystemRun r' r'' → SystemRun r r''

module _ {F : Type 0} where
  -- Every market that the router knows has only inputs for its symbol.
  abbrev pub AllAddressed : List (Str × Market F) → Type 0
  AllAddressed xs = (s : Str) (m : Market F) → at s xs ≡ some m → IsAddressed s m

  -- One market is another, and the others are as they were.
  replaced-AllAddressed :
      (xs ys : List (Str × Market F)) (symbol : Str) (m : Market F)
      → AllAddressed xs
      → at symbol ys ≡ some m
      → IsAddressed symbol m
      → ((s : Str) → s ≢ symbol → at s ys ≡ at s xs)
      → AllAddressed ys
  replaced-AllAddressed xs ys symbol m v e w others s n h = elim (Bool-cases (str_eq s symbol)) [
    | inl y ↦
        let same : s ≡ symbol = (str_eq_iff s symbol).0 y in
        let found : m ≡ n = some-injective m n (sym e ∙ ap (λ x. at x ys) (sym same) ∙ h) in
        subst (λ x. IsAddressed x n) (sym same) (subst (IsAddressed symbol) found w)
    | inr k ↦ v s n (sym (others s (λ q. ground (arith, str_eq_iff s symbol))) ∙ h)
  ]

  module _ {M T : Type 0} (kind : ℕ) (symbol : T → Str) (deliver : Input T → Market F → Market F)
      (id : Str) (i : UnparsedMessage M) where
    handled-AllAddressed :
        ((t : T) (m : Market F)
          → IsAddressed (symbol t) m
          → IsAddressed (symbol t) (deliver (ticketed i id t) m))
        → (r r' : MarketRouter F) (p : Expected ParseError T) → AllAddressed r.markets
        → IsHandled kind symbol deliver id i r r' p
        → AllAddressed r'.markets
    handled-AllAddressed kept r r' _ v (malformed e (same, out)) = subst AllAddressed (sym same) v
    handled-AllAddressed kept r r' _ v (unknown t e (same, out)) = subst AllAddressed (sym same) v
    handled-AllAddressed kept r r' _ v (delivered t m e e' others same) =
        replaced-AllAddressed r.markets r'.markets (symbol t) (deliver (ticketed i id t) m) v e'
          (kept t m (v (symbol t) m e)) others

  module _ {M : Type 0} (i : UnparsedMessage M) (id : Str) where
    ordered-IsAddressed :
        (t : NewOrderSingle F) (m : Market F)
        → IsAddressed t.symbol m
        → IsAddressed t.symbol (ordered (ticketed i id t) m)
    ordered-IsAddressed t m v = record {
      order_input =
          All-append (OrderFor t.symbol) m.new_order_input (ticketed i id t ∷ []) v.order_input
            (refl, tt);
      cancel_input = v.cancel_input;
      orders = v.orders;
      cancels = v.cancels;
    }

    requested-IsAddressed :
        (t : OrderCancelRequest F) (m : Market F)
        → IsAddressed t.symbol m
        → IsAddressed t.symbol (requested (ticketed i id t) m)
    requested-IsAddressed t m v = record {
      order_input = v.order_input;
      cancel_input =
          All-append (CancelFor t.symbol) m.cancel_input (ticketed i id t ∷ []) v.cancel_input
            (refl, tt);
      orders = v.orders;
      cancels = v.cancels;
    }

module _ {F M : Type 0} ⦃fl : Float F⦄ ⦃fr : Freed F⦄
    (new_order_from : M → Expected ParseError (NewOrderSingle F))
    (cancel_from : M → Expected ParseError (OrderCancelRequest F)) where
  routed-AllAddressed :
      (id : Str) (i : UnparsedMessage M) (r : MarketRouter F)
      → AllAddressed r.markets
      → AllAddressed (market_on_input new_order_from cancel_from id i r).markets
  routed-AllAddressed id i r v =
      elim (market_on_input-IsHandled new_order_from cancel_from id i r) [
        | inl (k, h) ↦ handled-AllAddressed _ _ _ id i (ordered-IsAddressed i id) r _ _ v h
        | inr (inl (k, h)) ↦ handled-AllAddressed _ _ _ id i (requested-IsAddressed i id) r _ _ v h
        | inr (inr (k, j, same)) ↦ subst (λ x. AllAddressed x.markets) (sym same) v
      ]

  stepped-AllAddressed :
      {r r' : MarketRouter F}
      → AllAddressed r.markets
      → SystemStep new_order_from cancel_from r r'
      → AllAddressed r'.markets
  unfolding register_market
  stepped-AllAddressed {r} v (registered symbol m w) = λ t n h.
      elim (at-emplace symbol t m n r.markets h) [
        | inl (same, k) ↦ subst (λ x. IsAddressed x n) same (subst (IsAddressed symbol) k w)
        | inr known ↦ v t n known
      ]
  stepped-AllAddressed {r} v (routed id i) = routed-AllAddressed id i r v
  stepped-AllAddressed {r} v (worked symbol {m = m} {m' = m'} e moved) =
      replaced-AllAddressed r.markets (modify symbol (λ n. m') r.markets) symbol m' v
        (at-modify symbol (λ n. m') r.markets m e)
        (moved-IsAddressed symbol refl moved (v symbol m e))
        (λ s n. at-modify_other symbol s (λ k. m') r.markets n)

  -- Whatever markets are registered with only inputs for their symbol, whatever inputs the router gets, and in whatever
  -- order the units and workers of the markets take their steps: in every queue of the units of every market that the
  -- router knows, every order and every cancel request is for the symbol of that market.
  pub SystemRun-AllAddressed :
      {r r' : MarketRouter F}
      → AllAddressed r.markets
      → SystemRun new_order_from cancel_from r r'
      → AllAddressed r'.markets
  SystemRun-AllAddressed v rest = v
  SystemRun-AllAddressed v (step a run) = SystemRun-AllAddressed (stepped-AllAddressed v a) run
