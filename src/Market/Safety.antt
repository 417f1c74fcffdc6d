-- ===== src/Market/Safety.antt =====
-- A market stays well-formed, and its workers neither throw nor follow an invalid iterator.
use fix4_2_protocol.Base.{Str, str_eq, true, str_eq_iff, some, List, ◌∷◌, ◌≡◌, sym, ◌∙◌, subst, All}
use fix4_2_protocol.Core.Float.{Float, IsLinear}
use fix4_2_protocol.Message.Types.{NewOrderSingle, OrderCancelRequest}
use fix4_2_protocol.OrderBook.{Freed, Unchanged, returned}
use fix4_2_protocol.Thread.QueueMutex.{QueueMutex, lock, lock_front}
use fix4_2_protocol.Market.{Market, Input}
use fix4_2_protocol.Market.NewOrder.{new_order_work}
use fix4_2_protocol.Market.Cancel.{cancel_work}
use fix4_2_protocol.Market.Step.{
  Step, receive_new_order, receive_cancel, check_new_order, check_cancel, work_new_order,
  work_cancel, redirect_new_order, redirect_cancel,
}
use fix4_2_protocol.Market.Checks.{
  IsSafe, check_new_order-IsSafe, check_cancel-IsSafe, returned_inj,
}
use fix4_2_protocol.Market.Placing.{IsReady, new_order_work_returns}
use fix4_2_protocol.Market.Removing.{HasQuantity, cancel_work_returns}

pub str_sound : (a b : Str) → str_eq a b ≡ true → a ≡ b
str_sound a b h = (str_eq_iff a b).0 h

module _ {F : Type 0} ⦃fl : Float F⦄ ⦃fr : Freed F⦄ (lin : IsLinear fl) (still : Unchanged fr) where
  -- In a well-formed market, over prices that compare as on a line, and where freed nodes still read as they were, the new-order worker returns with every
  -- order whose ticket it has locked: it neither throws nor follows an invalid iterator. The market after is
  -- well-formed.
  pub new_order_work-returned :
      (m : Market F) (i : Input (NewOrderSingle F)) (next : List (Input (NewOrderSingle F)))
      (q : QueueMutex Str)
      → IsSafe m
      → m.new_orders ≡ i ∷ next
      → lock str_eq m.mutex i.execution_id ≡ some q
      → (m' : Market F) × (new_order_work i (record m { new_orders = next; mutex = q })
          ≡ returned m')
        × IsSafe m'
  new_order_work-returned m i next q s e h =
      let (xs, before, after) = lock_front str_eq str_sound m.mutex q i.execution_id h in
      let (ready, others) : IsReady i × All IsReady next = rw e at s.orders in
      let (m', run, (mu, ni, ci, ns, cs), v) =
        new_order_work_returns lin still i (record m { new_orders = next; mutex = q })
          i.execution_id xs after s.book ready in
      (
        m',
        run,
        record {
          book = v;
          orders = subst (All IsReady) (sym ns) others;
          requests = subst (All HasQuantity) (sym cs) s.requests;
        },
      )

  -- In a well-formed market, over prices that compare as on a line, and where freed entries still read as they were, the cancel worker returns with every
  -- request whose ticket it has locked: it neither throws nor erases an invalid iterator. The market after is
  -- well-formed.
  cancel_work-returned :
      (m : Market F) (i : Input (OrderCancelRequest F)) (next : List (Input (OrderCancelRequest F)))
      (q : QueueMutex Str)
      → IsSafe m
      → m.cancels ≡ i ∷ next
      → lock str_eq m.mutex i.execution_id ≡ some q
      → (m' : Market F) × (cancel_work i (record m { cancels = next; mutex = q }) ≡ returned m')
        × IsSafe m'
  cancel_work-returned m i next q s e h =
      let (xs, before, after) = lock_front str_eq str_sound m.mutex q i.execution_id h in
      let (ready, others) : HasQuantity i × All HasQuantity next = rw e at s.requests in
      let (m', run, (mu, ni, ci, ns, cs), v) =
        cancel_work_returns lin still i (record m { cancels = next; mutex = q }) i.execution_id xs
          after s.book ready in
      (
        m',
        run,
        record {
          book = v;
          orders = subst (All IsReady) (sym ns) s.orders;
          requests = subst (All HasQuantity) (sym cs) others;
        },
      )

  pub moved-IsSafe : {m m' : Market F} {g s : List Str} → IsSafe m → Step m g s m' → IsSafe m'
  unfolding redirect_new_order redirect_cancel
  moved-IsSafe v (receive_new_order i) = record {
    book = v.book;
    orders = v.orders;
    requests = v.requests;
  }
  moved-IsSafe v (receive_cancel i) = record {
    book = v.book;
    orders = v.orders;
    requests = v.requests;
  }
  moved-IsSafe v (check_new_order i e) =
      check_new_order-IsSafe i _
        (record { book = v.book; orders = v.orders; requests = v.requests })
  moved-IsSafe v (check_cancel i e run) =
      check_cancel-IsSafe i _ _ (record { book = v.book; orders = v.orders; requests = v.requests })
        run
  moved-IsSafe {m} {m'} v (work_new_order i {q = q} e h run) =
      let (n, got, w) = new_order_work-returned m i _ q v e h in
      subst IsSafe (returned_inj n m' (sym got ∙ run)) w
  moved-IsSafe {m} {m'} v (work_cancel i {q = q} e h run) =
      let (n, got, w) = cancel_work-returned m i _ q v e h in
      subst IsSafe (returned_inj n m' (sym got ∙ run)) w
