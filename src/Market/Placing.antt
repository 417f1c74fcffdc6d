-- ===== src/Market/Placing.antt =====
-- The new-order worker returns, and leaves the book well-formed.
use fix4_2_protocol.Base.{
  Str, true, false, Option, none, List, ◌∷◌, ◌≡◌, ◌≢◌, ◌⊎◌, inl, inr, refl, Bool-cases,
  Option-cases,
}
use fix4_2_protocol.Core.Enum.{Side, OrderRejectReason}
use fix4_2_protocol.Core.Float.{Float, IsLinear}
use fix4_2_protocol.Message.Types.{NewOrderSingle}
use fix4_2_protocol.OrderBook.{Freed, Unchanged, OrderBook, OrderInfo, returned}
use fix4_2_protocol.OrderBook.Api.{buying, selling, direction, has, allow, add, add_buy, add_sell}
use fix4_2_protocol.OrderBook.Index.{IsValid}
use fix4_2_protocol.OrderBook.Index.Add.{add-IsValid}
use fix4_2_protocol.Market.{Market, Input, execution_report, append, and_then}
use fix4_2_protocol.Market.NewOrder.{
  rejected, acknowledged, side_supported, order_info, place, refuse, accept, new_order_work,
}
use fix4_2_protocol.Market.Release.{Worked, unlock_returns, reply_returns}

module _ {F : Type 0} where
  -- What the checks leave to the workers.
  pub record IsReady (i : Input (NewOrderSingle F)) : Type 0 where
    pub priced : i.message.price ≢ none
    pub sized : i.message.order_qty ≢ none
    pub sided : side_supported i.message.side ≡ true

supported_direction :
    (s : Side) → side_supported s ≡ true → (direction s ≡ buying) ⊎ (direction s ≡ selling)
unfolding side_supported direction
supported_direction Side.buy h = inl refl
supported_direction Side.buy_minus h = inl refl
supported_direction Side.sell h = inr refl
supported_direction Side.sell_plus h = inr refl
supported_direction s h = cc

module _ {F : Type 0} ⦃fl : Float F⦄ where
  refuse_returns :
      (i : Input (NewOrderSingle F)) (info : OrderInfo F) (reason : Option OrderRejectReason)
      (text : Str) (m : Market F) (x : Str) (xs : List Str)
      → m.mutex.queue ≡ x ∷ xs
      → IsValid m.ob
      → Worked (refuse i info reason text m) m xs
  unfolding refuse
  refuse_returns i info reason text m x xs h v =
      reply_returns i (λ m'. execution_report (rejected m' info reason text)) m x xs h v

  add_returns :
      ⦃fr : Freed F⦄ (b : OrderBook F) (info : OrderInfo F)
      → side_supported info.order.side ≡ true
      → (b' : OrderBook F) × (add b info ≡ returned b')
  unfolding add
  add_returns b info h = elim (supported_direction info.order.side h) [
    | inl e ↦ (add_buy b info, rw (add, e) refl)
    | inr e ↦ (add_sell b info, rw (add, e) refl)
  ]

  module _ ⦃fr : Freed F⦄ (lin : IsLinear fl) (still : Unchanged fr) where
    accept_returns :
        (i : Input (NewOrderSingle F)) (info : OrderInfo F) (m : Market F) (x : Str) (xs : List Str)
        → m.mutex.queue ≡ x ∷ xs
        → IsValid m.ob
        → side_supported info.order.side ≡ true
        → has m.ob info.order.order_id ≡ false
        → Worked (accept i info m) m xs
    unfolding accept append and_then
    accept_returns i info m x xs h v s new =
        let (b', run) = add_returns m.ob info s in
        let m' : Market F = record (append i (execution_report (acknowledged m info)) m) {
          ob = b';
        } in
        rw run (unlock_returns m' x xs h (add-IsValid lin still m.ob info v b' new run))

    ticked : (b : OrderBook F) (side : Side) → IsValid b → IsValid (allow b side).0
    unfolding allow
    ticked b side v = record {
      bids = v.bids;
      asks = v.asks;
      bid_order = v.bid_order;
      ask_order = v.ask_order;
      one_side = v.one_side;
    }

    place_returns :
        (i : Input (NewOrderSingle F)) (info : OrderInfo F) (m : Market F) (x : Str) (xs : List Str)
        → m.mutex.queue ≡ x ∷ xs
        → IsValid m.ob
        → side_supported info.order.side ≡ true
        → Worked (place i info m) m xs
    unfolding place
    place_returns i info m x xs h v s =
        let b = (allow m.ob info.order.side).0 in
        let w = ticked m.ob info.order.side v in
        let m' : Market F = record m { ob = b } in
        elim (Bool-cases (allow m.ob info.order.side).1) [
          | inr e ↦ rw e (refuse_returns i info none _ m' x xs h w)
          | inl e ↦ elim (Bool-cases (has b info.order.order_id)) [
            | inr f ↦ rw (e, f) (accept_returns i info m' x xs h w s f)
            | inl f ↦ rw (e, f) (refuse_returns i info _ _ m' x xs h w)
          ]
        ]

    pub new_order_work_returns :
        (i : Input (NewOrderSingle F)) (m : Market F) (x : Str) (xs : List Str)
        → m.mutex.queue ≡ x ∷ xs
        → IsValid m.ob
        → IsReady i
        → Worked (new_order_work i m) m xs
    unfolding new_order_work order_info and_then
    new_order_work_returns i m x xs h v r = elim (Option-cases i.message.price) [
      | inl e ↦ absurd (r.priced e)
      | inr (p, e) ↦ elim (Option-cases i.message.order_qty) [
        | inl f ↦ absurd (r.sized f)
        | inr (q, f) ↦ rw (e, f) (place_returns i _ m x xs h v r.sided)
      ]
    ]
