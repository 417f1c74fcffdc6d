-- ===== src/Market/Removing.antt =====
-- The cancel worker returns, and leaves the book well-formed.
use fix4_2_protocol.Base.{
  Str, true, none, List, ◌∷◌, ◌≡◌, ◌≢◌, inl, inr, arith, Bool-cases, Option-cases,
}
use fix4_2_protocol.Core.Enum.{Side, CancelRejectReason}
use fix4_2_protocol.Core.Float.{Float, IsLinear}
use fix4_2_protocol.Core.Order.{Order}
use fix4_2_protocol.Message.Types.{OrderCancelRequest}
use fix4_2_protocol.OrderBook.{Freed, Unchanged, OrderBook}
use fix4_2_protocol.OrderBook.Api.{has, has_on}
use fix4_2_protocol.OrderBook.Index.{IsValid}
use fix4_2_protocol.OrderBook.Index.Cancel.{cancel-has_on}
use fix4_2_protocol.OrderBook.Index.Lookup.{get_order-has}
use fix4_2_protocol.Market.{Market, Input, execution_report, order_cancel_reject, and_then}
use fix4_2_protocol.Market.Cancel.{
  cancel_work, too_late, cancel_refused, cancel_rejected, canceled, remove,
}
use fix4_2_protocol.Market.Release.{Worked, reply_returns}

module _ {F : Type 0} where
  abbrev pub HasQuantity : Input (OrderCancelRequest F) → Type 0
  HasQuantity i = i.message.order_qty ≢ none

module _ {F : Type 0} ⦃fl : Float F⦄ where
  too_late_returns :
      (i : Input (OrderCancelRequest F)) (text : Str) (m : Market F) (x : Str) (xs : List Str)
      → m.mutex.queue ≡ x ∷ xs
      → IsValid m.ob
      → Worked (too_late i text m) m xs
  unfolding too_late cancel_refused
  too_late_returns i text m x xs h v =
      reply_returns i
        (λ m'.
          order_cancel_reject
            (cancel_rejected i i.message.orig_cl_ord_id CancelRejectReason.too_late_cancel text))
        m x xs h v

  pub has_on-has :
      (b : OrderBook F) (id : Str) (side : Side) → has_on b id side ≡ true → has b id ≡ true
  unfolding has_on has
  has_on-has b id side h = ground arith

  module _ ⦃fr : Freed F⦄ (lin : IsLinear fl) (still : Unchanged fr) where
    remove_returns :
        (i : Input (OrderCancelRequest F)) (o : Order F) (m : Market F) (x : Str) (xs : List Str)
        → m.mutex.queue ≡ x ∷ xs
        → IsValid m.ob
        → has_on m.ob i.message.orig_cl_ord_id i.message.side ≡ true
        → Worked (remove i o m) m xs
    unfolding remove and_then
    remove_returns i o m x xs h v there =
        let (b', run, w, ids) =
          cancel-has_on lin still m.ob v i.message.orig_cl_ord_id i.message.side there in
        let m' : Market F = record m { ob = b' } in
        rw run (reply_returns i (λ n. execution_report (canceled i n o)) m' x xs h w)

    pub cancel_work_returns :
        (i : Input (OrderCancelRequest F)) (m : Market F) (x : Str) (xs : List Str)
        → m.mutex.queue ≡ x ∷ xs
        → IsValid m.ob
        → HasQuantity i
        → Worked (cancel_work i m) m xs
    unfolding cancel_work and_then
    cancel_work_returns i m x xs h v q = elim (Option-cases i.message.order_qty) [
      | inl e ↦ absurd (q e)
      | inr (qty, e) ↦ elim (Bool-cases (has_on m.ob i.message.orig_cl_ord_id i.message.side)) [
        | inr f ↦ rw (e, f) (too_late_returns i _ m x xs h v)
        | inl f ↦
            let known = has_on-has m.ob i.message.orig_cl_ord_id i.message.side f in
            let (o, got, id) = get_order-has m.ob v i.message.orig_cl_ord_id known in
            elim (Bool-cases (fl.eq o.remain_qty qty)) [
              | inr g ↦ rw (e, f, got, g) (too_late_returns i _ m x xs h v)
              | inl g ↦ rw (e, f, got, g) (remove_returns i o m x xs h v f)
            ]
      ]
    ]
