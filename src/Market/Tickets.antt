-- ===== src/Market/Tickets.antt =====
-- The tickets of a market, step by step: whatever the inputs are, and whatever becomes of the order book.
use fix4_2_protocol.Base.{
  Str, str_eq, str_eq_iff, Bool, true, false, ◌&&◌, none, some, Option, List, [], ◌∷◌, ◌++◌, ◌≡◌,
  ◌⊎◌, inl, inr, refl, sym, subst, arith, append-nil, Option-cases, Bool-cases,
}
use fix4_2_protocol.Core.Float.{Float}
use fix4_2_protocol.Message.Types.{NewOrderSingle, OrderCancelRequest}
use fix4_2_protocol.OrderBook.{Freed, returned}
use fix4_2_protocol.Thread.QueueMutex.{
  QueueMutex, lock, unlock, tail, lock_front, remove_last, finish,
}
use fix4_2_protocol.Market.{Market, Input, append, finish_ticket, unlock_market, released, and_then}
use fix4_2_protocol.Market.NewOrder.{
  is_limit, side_supported, missing, check_type, check_side, not_supported_side,
  not_supported_order_type, new_order_on_input, order_info, place, refuse, accept, new_order_work,
}
use fix4_2_protocol.Market.Cancel.{
  cancel_on_input, verify_order_state, verify_known, verify_side, verified, acknowledge,
  push_cancel, cancel_refused, cancel_work, too_late, remove,
}
use fix4_2_protocol.Market.Step.{
  Step, receive_new_order, receive_cancel, check_new_order, check_cancel, work_new_order,
  work_cancel, redirect_new_order, redirect_cancel,
}

-- A list less some of its elements, each of which is one of P.
pub data Less (P : Str → Type 0) : List Str → List Str → Type 0 where
  done : Less P [] []
  keep : {x : Str} {xs ys : List Str} → Less P xs ys → Less P (x ∷ xs) (x ∷ ys)
  drop : {x : Str} {xs ys : List Str} → P x → Less P xs ys → Less P xs (x ∷ ys)

module _ {P : Str → Type 0} where
  pub Less-same : (xs : List Str) → Less P xs xs
  Less-same [] = done
  Less-same (x ∷ xs) = keep (Less-same xs)

  pub Less-trans : {ys zs : List Str} → Less P ys zs → {xs : List Str} → Less P xs ys → Less P xs zs
  Less-trans done h = h
  Less-trans (keep k) (keep h) = keep (Less-trans k h)
  Less-trans (keep k) (drop p h) = drop p (Less-trans k h)
  Less-trans (drop p k) h = drop p (Less-trans k h)

  pub Less-append : (ws : List Str) {xs ys : List Str} → Less P xs ys → Less P (ws ++ xs) (ws ++ ys)
  Less-append [] h = h
  Less-append (w ∷ ws) h = keep (Less-append ws h)

  pub Less-after : (ws : List Str) {xs ys : List Str} → Less P xs ys → Less P (xs ++ ws) (ys ++ ws)
  Less-after ws done = Less-same ws
  Less-after ws (keep h) = keep (Less-after ws h)
  Less-after ws (drop p h) = drop p (Less-after ws h)

  pub Less-widen :
      {Q : Str → Type 0}
      → ((x : Str) → P x → Q x)
      → {xs ys : List Str} → Less P xs ys
      → Less Q xs ys
  Less-widen f done = done
  Less-widen f (keep h) = keep (Less-widen f h)
  Less-widen f (drop {x = x} p h) = drop (f x p) (Less-widen f h)

  remove_last-Less :
      (xs ys : List Str) (id : Str) → P id → remove_last str_eq xs id ≡ some ys → Less P ys xs
  unfolding remove_last
  remove_last-Less [] ys id p h = cc
  remove_last-Less (x ∷ xs) ys id p h = elim (Option-cases (remove_last str_eq xs id)) [
    | inr (zs, e) ↦
        subst (λ l. Less P l (x ∷ xs)) (ground arith) (keep (remove_last-Less xs zs id p e))
    | inl e ↦
        let same : x ≡ id = ground (arith, str_eq_iff x id) in
        subst (λ l. Less P l (x ∷ xs)) (ground arith) (drop (subst P (sym same) p) (Less-same xs))
  ]

  pub finish-Less :
      (q : QueueMutex Str) (id : Str) → P id → Less P (finish str_eq q id).0.queue q.queue
  unfolding finish
  finish-Less q id p = elim (Option-cases (remove_last str_eq q.queue id)) [
    | inl e ↦ rw (finish, e) (Less-same q.queue)
    | inr (ys, e) ↦ rw (finish, e) (remove_last-Less q.queue ys id p e)
  ]

module _ {F : Type 0} where
  abbrev is_given : Option F → Bool
  is_given none = false
  is_given (some q) = true

  -- The new-order unit leaves the ticket of an order of which this holds.
  abbrev pub passes : Input (NewOrderSingle F) → Bool
  passes i =
      is_given i.message.price
      && (is_given i.message.order_qty
          && (is_limit i.message.ord_type && side_supported i.message.side))

  pub on_input_eq :
      (i : Input (NewOrderSingle F)) (m : Market F) (p q : F)
      → i.message.price ≡ some p
      → i.message.order_qty ≡ some q
      → new_order_on_input i m ≡ check_side i (check_type i m)
  unfolding new_order_on_input
  on_input_eq i m p q e f = ground arith

  module _ {P : Str → Type 0} (i : Input (NewOrderSingle F)) where
    type-Less :
        (m : Market F)
        → (is_limit i.message.ord_type ≡ false → P i.execution_id)
        → Less P (check_type i m).mutex.queue m.mutex.queue
    unfolding check_type not_supported_order_type finish_ticket append
    type-Less m p = elim (Bool-cases (is_limit i.message.ord_type)) [
      | inl e ↦ rw e (Less-same m.mutex.queue)
      | inr e ↦ rw e (finish-Less m.mutex i.execution_id (p e))
    ]

    side-Less :
        (m : Market F)
        → (side_supported i.message.side ≡ false → P i.execution_id)
        → Less P (check_side i m).mutex.queue m.mutex.queue
    unfolding check_side not_supported_side finish_ticket append
    side-Less m p = elim (Bool-cases (side_supported i.message.side)) [
      | inl e ↦ rw e (Less-same m.mutex.queue)
      | inr e ↦ rw e (
          Less-trans (finish-Less m.mutex i.execution_id (p e))
            (finish-Less (finish str_eq m.mutex i.execution_id).0 i.execution_id (p e)))
    ]

    on_input-Less :
        (m : Market F)
        → (passes i ≡ false → P i.execution_id)
        → Less P (new_order_on_input i m).mutex.queue m.mutex.queue
    unfolding new_order_on_input missing finish_ticket append
    on_input-Less m p = elim (Option-cases i.message.price) [
      | inl e ↦ rw e (finish-Less m.mutex i.execution_id (p (rw e refl)))
      | inr (x, e) ↦ elim (Option-cases i.message.order_qty) [
        | inl f ↦ rw (e, f) (finish-Less m.mutex i.execution_id (p (rw (e, f) refl)))
        | inr (y, f) ↦ rw (on_input_eq i m x y e f) (
            Less-trans (type-Less m (λ k. p (rw (e, f, k) refl)))
              (side-Less (check_type i m) (λ k. p (ground arith))))
      ]
    ]

module _ {F : Type 0} ⦃fl : Float F⦄ where
  cancel_cases :
      (i : Input (OrderCancelRequest F)) (m m' : Market F)
      → cancel_on_input i m ≡ returned m'
      → (m'.mutex.queue ≡ m.mutex.queue)
        ⊎ ((m'.mutex.queue ≡ (finish str_eq m.mutex i.execution_id).0.queue)
            × (m'.cancels ≡ m.cancels))
  unfolding cancel_on_input verify_order_state verify_known verify_side verified acknowledge
      push_cancel cancel_refused finish_ticket append and_then
  cancel_cases i m m' h = ground arith

module _ {F : Type 0} ⦃fl : Float F⦄ ⦃fr : Freed F⦄ where
  new_order_work_pops :
      (i : Input (NewOrderSingle F)) (m m' : Market F) (x : Str) (xs : List Str)
      → m.mutex.queue ≡ x ∷ xs
      → new_order_work i m ≡ returned m'
      → m'.mutex.queue ≡ xs
  unfolding new_order_work order_info place refuse accept unlock_market released unlock tail append
      and_then
  new_order_work_pops i m m' x xs e h = ground arith

  cancel_work_pops :
      (i : Input (OrderCancelRequest F)) (m m' : Market F) (x : Str) (xs : List Str)
      → m.mutex.queue ≡ x ∷ xs
      → cancel_work i m ≡ returned m'
      → m'.mutex.queue ≡ xs
  unfolding cancel_work too_late remove unlock_market released unlock tail cancel_refused append
      and_then
  cancel_work_pops i m m' x xs e h = ground arith

  -- A step takes a ticket back: the new-order unit that of an order it does not let pass whole, the cancel
  -- unit that of a request it does not hand on to the worker.
  abbrev pub TakenBack : {m m' : Market F} {g s : List Str} → Step m g s m' → Str → Type 0
  TakenBack (check_new_order i e) x = (x ≡ i.execution_id) × (passes i ≡ false)
  TakenBack {m} {m'} (check_cancel i e run) x = (x ≡ i.execution_id) × (m'.cancels ≡ m.cancels)
  TakenBack a x = ⊥

  served :
      {P : Str → Type 0} (m m' : Market F) (q : QueueMutex Str) (id : Str)
      → lock str_eq m.mutex id ≡ some q
      → ((xs : List Str) → q.queue ≡ id ∷ xs → m'.mutex.queue ≡ xs)
      → Less P (id ∷ m'.mutex.queue) (m.mutex.queue ++ [])
  served m m' q id h popped =
      let (xs, before, after) = lock_front str_eq (λ a b e. (str_eq_iff a b).0 e) m.mutex q id h in
      rw (popped xs after, before, append-nil xs) (Less-same (id ∷ xs))

  pub Step-Less :
      {m m' : Market F} {g s : List Str} (a : Step m g s m')
      → Less (TakenBack a) (s ++ m'.mutex.queue) (m.mutex.queue ++ g)
  unfolding redirect_new_order redirect_cancel
  Step-Less (receive_new_order i) = Less-same _
  Step-Less (receive_cancel i) = Less-same _
  Step-Less {m} (check_new_order i {rest = r} e) =
      rw (append-nil m.mutex.queue)
        (on_input-Less i (record m { new_order_input = r }) (λ k. (refl, k)))
  Step-Less {m} {m'} (check_cancel i {rest = r} e run) =
      rw (append-nil m.mutex.queue) (elim (cancel_cases i (record m { cancel_input = r }) m' run) [
        | inl same ↦ rw same (Less-same m.mutex.queue)
        | inr (gone, k) ↦ rw gone (finish-Less m.mutex i.execution_id (refl, k))
      ])
  Step-Less {m} {m'} (work_new_order i {rest = r} {q = q} e h run) =
      served m m' q i.execution_id h (λ xs a.
        new_order_work_pops i (record m { new_orders = r; mutex = q }) m' i.execution_id xs a run)
  Step-Less {m} {m'} (work_cancel i {rest = r} {q = q} e h run) =
      served m m' q i.execution_id h (λ xs a.
        cancel_work_pops i (record m { cancels = r; mutex = q }) m' i.execution_id xs a run)
