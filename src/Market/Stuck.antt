-- ===== src/Market/Stuck.antt =====
-- An order whose ticket is gone: the worker waits for it without end.
use fix4_2_protocol.Base.{
  str_eq_iff, ◌≢◌, Str, str_eq, true, false, none, some, List, [], ◌∷◌, ◌++◌, ◌≡◌, ◌⊎◌, inl, inr,
  refl, ◌∙◌, ap, arith,
}
use fix4_2_protocol.Core.Float.{Float}
use fix4_2_protocol.Message.Types.{NewOrderSingle, OrderCancelRequest}
use fix4_2_protocol.OrderBook.{Freed, returned}
use fix4_2_protocol.Thread.QueueMutex.{QueueMutex, lock, lock_front, remove_last, finish}
use fix4_2_protocol.Market.{unlock_market, released, Market, Input, append, finish_ticket, and_then}
use fix4_2_protocol.Market.NewOrder.{
  is_limit, side_supported, new_order_on_input, missing, check_type, check_side, not_supported_side,
  not_supported_order_type,
}
use fix4_2_protocol.Market.Cancel.{
  cancel_work, too_late, remove, cancel_on_input, verify_order_state, verify_known, verify_side,
  verified, acknowledge, push_cancel, cancel_refused,
}
use fix4_2_protocol.Market.Step.{
  Step, Run, rest, step, receive_new_order, receive_cancel, check_new_order, check_cancel,
  work_new_order, work_cancel, redirect_new_order, redirect_cancel,
}
use fix4_2_protocol.Market.Tickets.{Less, done, keep, drop, Step-Less}

-- The id is not among the tickets.
abbrev pub Absent : Str → List Str → Type 0
Absent id [] = Unit {0}
Absent id (x ∷ xs) = (str_eq x id ≡ false) × Absent id xs

Less-Absent :
    {P : Str → Type 0} (id : Str) {ys xs : List Str} → Less P xs ys → Absent id ys → Absent id xs
Less-Absent id done a = a
Less-Absent id (keep h) (e, a) = (e, Less-Absent id h a)
Less-Absent id (drop p h) (e, a) = Less-Absent id h a

Absent-append : (id : Str) (xs ys : List Str) → Absent id xs → Absent id ys → Absent id (xs ++ ys)
Absent-append id [] ys a b = b
Absent-append id (x ∷ xs) ys (e, a) b = (e, Absent-append id xs ys a b)

Absent-after : (id : Str) (xs ys : List Str) → Absent id (xs ++ ys) → Absent id ys
Absent-after id [] ys a = a
Absent-after id (x ∷ xs) ys (e, a) = Absent-after id xs ys a

Absent-before : (id : Str) (xs ys : List Str) → Absent id (xs ++ ys) → Absent id xs
Absent-before id [] ys a = tt
Absent-before id (x ∷ xs) ys (e, a) = (e, Absent-before id xs ys a)

module _ {F : Type 0} where
  -- The first order of the worker's queue.
  abbrev pub Waits : Input (NewOrderSingle F) → Market F → Type 0
  Waits i m = (next : List (Input (NewOrderSingle F))) × (m.new_orders ≡ i ∷ next)

  check_grows :
      (j : Input (NewOrderSingle F)) (m : Market F)
      → ((new_order_on_input j m).new_orders ≡ m.new_orders)
        ⊎ ((new_order_on_input j m).new_orders ≡ m.new_orders ++ j ∷ [])
  unfolding new_order_on_input missing check_type check_side not_supported_side
      not_supported_order_type finish_ticket append
  check_grows j m = ground arith

module _ {F : Type 0} ⦃fl : Float F⦄ ⦃fr : Freed F⦄ where
  cancel_keeps :
      (j : Input (OrderCancelRequest F)) (m m' : Market F)
      → cancel_on_input j m ≡ returned m'
      → m'.new_orders ≡ m.new_orders
  unfolding cancel_on_input verify_order_state verify_known verify_side verified acknowledge
      push_cancel cancel_refused finish_ticket append and_then
  cancel_keeps j m m' h = ground arith

  cancel_work_keeps :
      (j : Input (OrderCancelRequest F)) (m m' : Market F)
      → cancel_work j m ≡ returned m'
      → m'.new_orders ≡ m.new_orders
  unfolding cancel_work too_late remove unlock_market released cancel_refused append and_then
  cancel_work_keeps j m m' h = ground arith

  not_given :
      (m : Market F) (i : Input (NewOrderSingle F)) (q : QueueMutex Str)
      → Absent i.execution_id m.mutex.queue
      → lock str_eq m.mutex i.execution_id ≡ some q
      → i.execution_id ≢ i.execution_id
  not_given m i q a h =
      let (xs, before, after) =
        lock_front str_eq (λ a b e. (str_eq_iff a b).0 e) m.mutex q i.execution_id h in
      let (e, b) : (str_eq i.execution_id i.execution_id ≡ false) × Absent i.execution_id xs =
        rw before at a in
      ground (arith, str_eq_iff i.execution_id i.execution_id)

  moved-Waits :
      (i : Input (NewOrderSingle F)) {m m' : Market F} {g s : List Str}
      → Waits i m
      → Absent i.execution_id m.mutex.queue
      → Step m g s m'
      → Waits i m'
  unfolding redirect_new_order redirect_cancel
  moved-Waits i (next, w) a (receive_new_order j) = (next, w)
  moved-Waits i (next, w) a (receive_cancel j) = (next, w)
  moved-Waits i {m} (next, w) a (check_new_order j {rest = r} e) =
      elim (check_grows j (record m { new_order_input = r })) [
        | inl same ↦ (next, same ∙ w)
        | inr more ↦ (next ++ j ∷ [], more ∙ ap (λ l. l ++ j ∷ []) w)
      ]
  moved-Waits i {m} {m'} (next, w) a (check_cancel j {rest = r} e run) =
      (next, cancel_keeps j (record m { cancel_input = r }) m' run ∙ w)
  moved-Waits i {m} (next, w) a (work_new_order j {q = q} e h run) =
      let same : j ≡ i = cc in absurd (not_given m i q a (rw same at h) refl)
  moved-Waits i {m} {m'} (next, w) a (work_cancel j {rest = r} {q = q} e h run) =
      (next, cancel_work_keeps j (record m { cancels = r; mutex = q }) m' run ∙ w)

  reached-Waits :
      (i : Input (NewOrderSingle F)) {m m' : Market F} {g s : List Str}
      → Waits i m
      → Absent i.execution_id m.mutex.queue
      → Absent i.execution_id g
      → Run m g s m'
      → Waits i m'
  reached-Waits i w a b rest = w
  reached-Waits i {m} w a b (step {n = n} {g = g} {g' = g'} {s = s} x r) =
      let given =
        Absent-append i.execution_id m.mutex.queue g a (Absent-before i.execution_id g g' b) in
      reached-Waits i (moved-Waits i w a x)
        (Absent-after i.execution_id s n.mutex.queue
          (Less-Absent i.execution_id (Step-Less x) given))
        (Absent-after i.execution_id g g' b) r

remove_last_snoc :
    (id : Str) (xs : List Str) → Absent id xs → remove_last str_eq (xs ++ id ∷ []) id ≡ some xs
unfolding remove_last
remove_last_snoc id [] a = ground (arith, str_eq_iff id id)
remove_last_snoc id (x ∷ xs) (e, a) = ground (arith, remove_last_snoc id xs a)

module _ {F : Type 0} where
  not_limit_input :
      (i : Input (NewOrderSingle F)) (m : Market F) (xs : List Str)
      → i.message.price ≢ none
      → i.message.order_qty ≢ none
      → side_supported i.message.side ≡ true
      → is_limit i.message.ord_type ≡ false
      → m.new_orders ≡ []
      → remove_last str_eq m.mutex.queue i.execution_id ≡ some xs
      → (Waits i (new_order_on_input i m)) × ((new_order_on_input i m).mutex.queue ≡ xs)
  unfolding new_order_on_input check_type check_side not_supported_order_type finish_ticket append
      finish
  not_limit_input i m xs p q s t e h = (([], ground arith), ground arith)

module _ {F : Type 0} ⦃fl : Float F⦄ ⦃fr : Freed F⦄ where
  -- An order with a price, a quantity and a supported side, but not a limit order, that the new-order unit of a
  -- market takes while its ticket is the last, its id is no other ticket's, and no order waits for
  -- the worker: from then on, in every run that gives no ticket with the same id, the order is the
  -- first that waits for the worker. The worker never gets past it.
  pub new_order_on_input-Waits :
      (i : Input (NewOrderSingle F)) (m m' : Market F) (xs g s : List Str)
      → i.message.price ≢ none
      → i.message.order_qty ≢ none
      → side_supported i.message.side ≡ true
      → is_limit i.message.ord_type ≡ false
      → m.new_orders ≡ []
      → m.mutex.queue ≡ xs ++ i.execution_id ∷ []
      → Absent i.execution_id xs
      → Run (new_order_on_input i m) g s m'
      → Absent i.execution_id g
      → Waits i m'
  new_order_on_input-Waits i m m' xs g s p q sd t e h a r b =
      let gone : remove_last str_eq m.mutex.queue i.execution_id ≡ some xs =
        rw h (remove_last_snoc i.execution_id xs a) in
      let (w, left) = not_limit_input i m xs p q sd t e gone in reached-Waits i w (rw left a) b r
