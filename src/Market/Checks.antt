-- ===== src/Market/Checks.antt =====
-- The checks of the units leave a market well-formed.
use fix4_2_protocol.Base.{
  codes, ◌==◌, Str, Option, none, some, [], ◌∷◌, ◌≡◌, ◌≢◌, ◌⊎◌, inl, inr, refl, sym, ◌∙◌, subst,
  arith, All, All-append, Bool-cases, Option-cases,
}
use fix4_2_protocol.Core.Enum.{side_value, CancelRejectReason}
use fix4_2_protocol.Core.Float.{Float}
use fix4_2_protocol.Core.Order.{Order}
use fix4_2_protocol.Message.Types.{NewOrderSingle, OrderCancelRequest}
use fix4_2_protocol.OrderBook.{thrown, returned}
use fix4_2_protocol.OrderBook.Api.{direction, has_on}
use fix4_2_protocol.OrderBook.Index.{IsValid}
use fix4_2_protocol.OrderBook.Index.Cancel.{Direction-cases}
use fix4_2_protocol.OrderBook.Index.Lookup.{get_order-has}
use fix4_2_protocol.Thread.QueueMutex.{front}
use fix4_2_protocol.Market.{Market, Input, Reply, execution_report, append, finish_ticket, and_then}
use fix4_2_protocol.Market.NewOrder.{
  side_supported, is_limit, new_order_on_input, missing, check_type, check_side, not_supported_side,
  not_supported_order_type,
}
use fix4_2_protocol.Market.Cancel.{
  pending_cancel, push_cancel, next_up, cancel_on_input, cancel_refused, verify_order_state,
  verify_known, verify_side, verified, acknowledge,
}
use fix4_2_protocol.Market.Tickets.{on_input_eq}
use fix4_2_protocol.Market.Placing.{IsReady}
use fix4_2_protocol.Market.Removing.{HasQuantity, has_on-has}

pub returned_inj : {A : Type 0} (a b : A) → returned a ≡ returned b → a ≡ b
returned_inj a b h = cc

module _ {F : Type 0} ⦃fl : Float F⦄ where
  pub record IsSafe (m : Market F) : Type 0 where
    pub book : IsValid m.ob
    pub orders : All IsReady m.new_orders
    pub requests : All HasQuantity m.cancels

  append-IsSafe :
      {M : Type 0} (i : Input M) (r : Reply F) (m : Market F) → IsSafe m → IsSafe (append i r m)
  unfolding append
  append-IsSafe i r m s = record { book = s.book; orders = s.orders; requests = s.requests }

  finish-IsSafe : (id : Str) (m : Market F) → IsSafe m → IsSafe (finish_ticket id m)
  unfolding finish_ticket
  finish-IsSafe id m s = record { book = s.book; orders = s.orders; requests = s.requests }

  missing-IsSafe :
      (i : Input (NewOrderSingle F)) (text : Str) (m : Market F)
      → IsSafe m
      → IsSafe (missing i text m)
  unfolding missing
  missing-IsSafe i text m s = append-IsSafe i _ _ (finish-IsSafe _ m s)

  type-IsSafe : (i : Input (NewOrderSingle F)) (m : Market F) → IsSafe m → IsSafe (check_type i m)
  unfolding check_type not_supported_order_type
  type-IsSafe i m s = elim (Bool-cases (is_limit i.message.ord_type)) [
    | inl e ↦ rw e s
    | inr e ↦ rw e (finish-IsSafe _ _ (append-IsSafe i _ m s))
  ]

  side-IsSafe :
      (i : Input (NewOrderSingle F)) (m : Market F)
      → i.message.price ≢ none
      → i.message.order_qty ≢ none
      → IsSafe m
      → IsSafe (check_side i m)
  unfolding check_side not_supported_side
  side-IsSafe i m p q s = elim (Bool-cases (side_supported i.message.side)) [
    | inl e ↦ rw e (record {
      book = s.book;
      orders =
          All-append IsReady m.new_orders (i ∷ []) s.orders
            (record { priced = p; sized = q; sided = e }, tt);
      requests = s.requests;
    })
    | inr e ↦ rw e (finish-IsSafe _ _ (append-IsSafe i _ _ (finish-IsSafe _ m s)))
  ]

  pub check_new_order-IsSafe :
      (i : Input (NewOrderSingle F)) (m : Market F) → IsSafe m → IsSafe (new_order_on_input i m)
  unfolding new_order_on_input
  check_new_order-IsSafe i m s = elim (Option-cases i.message.price) [
    | inl e ↦ rw e (missing-IsSafe i _ m s)
    | inr (p, e) ↦ elim (Option-cases i.message.order_qty) [
      | inl f ↦ rw (e, f) (missing-IsSafe i _ m s)
      | inr (q, f) ↦
          rw (on_input_eq i m p q e f)
            (side-IsSafe i _ (λ n. ground arith) (λ n. ground arith) (type-IsSafe i m s))
    ]
  ]

  known-IsSafe :
      (i : Input (OrderCancelRequest F)) (m : Market F)
      → IsSafe m
      → (r : Market F × Option (Order F)) × (verify_known i m ≡ returned r) × IsSafe r.0
  unfolding verify_known verify_side and_then cancel_refused
  known-IsSafe i m s = elim (Bool-cases (has_on m.ob i.message.orig_cl_ord_id i.message.side)) [
    | inr f ↦ (
      (
        cancel_refused i (codes "NONE") CancelRejectReason.unknown_order_cancel
            (codes "Unknow order Id on this side") m,
        none,
      ),
      rw f refl,
      append-IsSafe i _ m s,
    )
    | inl f ↦
        let known = has_on-has m.ob i.message.orig_cl_ord_id i.message.side f in
        let (o, got, id) = get_order-has m.ob s.book i.message.orig_cl_ord_id known in
        elim (Bool-cases (side_value o.side == side_value i.message.side)) [
          | inr g ↦ (
            (
              cancel_refused i i.message.orig_cl_ord_id CancelRejectReason.unknown_order_cancel
                  (codes "Side doesn't exactly match") m,
              none,
            ),
            rw (f, got, g) refl,
            append-IsSafe i _ m s,
          )
          | inl g ↦ ((m, some o), rw (f, got, g) refl, s)
        ]
  ]

  verify_order_state_known :
      (i : Input (OrderCancelRequest F)) (m : Market F)
      → (verify_order_state i m ≡ verify_known i m)
        ⊎ ((t : Str) × (verify_order_state i m ≡ thrown t))
  unfolding verify_order_state
  verify_order_state_known i m = elim (Direction-cases (direction i.message.side)) [
    | inl e ↦ inl (rw (verify_order_state, e) refl)
    | inr (inl e) ↦ inl (rw (verify_order_state, e) refl)
    | inr (inr e) ↦
        inr (codes "Side not supported, for lockReadOrder", rw (verify_order_state, e) refl)
  ]

  push-IsSafe :
      (i : Input (OrderCancelRequest F)) (m : Market F)
      → HasQuantity i
      → IsSafe m
      → IsSafe (push_cancel i m)
  unfolding push_cancel
  push-IsSafe i m q s = record {
    book = s.book;
    orders = s.orders;
    requests = All-append HasQuantity m.cancels (i ∷ []) s.requests (q, tt);
  }

  acknowledge-IsSafe :
      (i : Input (OrderCancelRequest F)) (o : Order F) (t : Str) (m : Market F)
      → HasQuantity i
      → IsSafe m
      → (m' : Market F) × (acknowledge i o (some t) m ≡ returned m') × IsSafe m'
  unfolding acknowledge
  acknowledge-IsSafe i o t m q s = elim (Bool-cases (next_up m.cancels t i.execution_id)) [
    | inl e ↦ (push_cancel i m, rw e refl, push-IsSafe i m q s)
    | inr e ↦
        let n = append i (execution_report (pending_cancel i m o)) m in
        (push_cancel i n, rw e refl, push-IsSafe i n q (append-IsSafe i _ m s))
  ]

  pub verified-IsSafe :
      (i : Input (OrderCancelRequest F)) (m m' : Market F) (o : Option (Order F))
      → HasQuantity i
      → IsSafe m
      → verified i m o ≡ returned m'
      → IsSafe m'
  unfolding verified
  verified-IsSafe i m m' none q s h = subst (IsSafe) (returned_inj _ m' h) (finish-IsSafe _ m s)
  verified-IsSafe i m m' (some o) q s h = elim (Option-cases (front m.mutex)) [
    | inl e ↦ absurd (ground arith)
    | inr (t, e) ↦
        let (n, run, w) = acknowledge-IsSafe i o t m q s in
        subst (IsSafe) (returned_inj n m' (sym run ∙ (rw e at h))) w
  ]

  cancel_on_input_eq :
      (i : Input (OrderCancelRequest F)) (m : Market F) (q : F)
      → i.message.order_qty ≡ some q
      → cancel_on_input i m ≡ and_then (verify_order_state i m) (λ r. verified i r.0 r.1)
  unfolding cancel_on_input
  cancel_on_input_eq i m q e = rw e refl

  pub check_cancel-IsSafe :
      (i : Input (OrderCancelRequest F)) (m m' : Market F)
      → IsSafe m
      → cancel_on_input i m ≡ returned m'
      → IsSafe m'
  unfolding cancel_on_input and_then
  check_cancel-IsSafe i m m' s h = elim (Option-cases i.message.order_qty) [
    | inl e ↦
        subst (IsSafe) (returned_inj _ m' (rw e at h)) (append-IsSafe i _ _ (finish-IsSafe _ m s))
    | inr (q, e) ↦ elim (verify_order_state_known i m) [
      | inl known ↦
          let (r, run, w) = known-IsSafe i m s in
          verified-IsSafe i r.0 m' r.1 (λ n. ground arith) w
            (rw (cancel_on_input_eq i m q e, known, run) at h)
      | inr (t, failed) ↦
          let stopped : thrown t ≡ returned m' = rw (cancel_on_input_eq i m q e, failed) at h in cc
    ]
  ]
