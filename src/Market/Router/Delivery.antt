-- ===== src/Market/Router/Delivery.antt =====
-- server/src/ProcessUnit/MarketRouter.cpp: what an input does to the markets.
use fix4_2_protocol.Base.{
  ℕ, Str, codes, arith, ◌≡◌, ◌≢◌, ◌⊎◌, ◌==◌, refl, sym, inl, inr, Option-cases, Bool-cases, subst,
  none, some, List, [], ◌∷◌, ◌++◌, str_eq_iff,
}
use fix4_2_protocol.Core.Enum.{RejectReasonBusiness}
use fix4_2_protocol.Message.Types.{NewOrderSingle, OrderCancelRequest}
use fix4_2_protocol.Message.MsgType
use fix4_2_protocol.Market.{Market, Input}
use fix4_2_protocol.Thread.QueueMutex.{allow}
use fix4_2_protocol.Market.Step.{redirect_new_order, redirect_cancel}
use fix4_2_protocol.Market.Router.{
  ParseError, Expected, parsed, failed, parse_message, UnparsedMessage, MarketRouter, Rejection, at,
  modify, append_error, session_reject, business_reject, unknown_symbol, with_id,
  redirect_to_market, redirect_parsed_order, redirect_parsed_cancel, process_new_order_single,
  process_order_cancel_request, market_on_input,
}

module _ {A : Type 0} where
  pub at-modify :
      (s : Str) (f : A → A) (xs : List (Str × A)) (a : A)
      → at s xs ≡ some a
      → at s (modify s f xs) ≡ some (f a)
  unfolding at modify
  at-modify s f [] a h = cc
  at-modify s f ((k, b) ∷ xs) a h = ground (arith, at-modify s f xs a)

  pub at-modify_other :
      (s t : Str) (f : A → A) (xs : List (Str × A)) → t ≢ s → at t (modify s f xs) ≡ at t xs
  unfolding at modify
  at-modify_other s t f [] n = refl
  at-modify_other s t f ((k, b) ∷ xs) n =
      ground (arith, at-modify_other s t f xs n, str_eq_iff k s, str_eq_iff k t)

-- What the queues of a unit get of a message t.
abbrev pub ticketed : {M T : Type 0} → UnparsedMessage M → Str → T → Input T
ticketed i id t = record {
  client = i.client;
  receive_time = i.receive_time;
  execution_id = id;
  header = i.header;
  message = t;
}

module _ {F : Type 0} where
  -- The last ticket of a market, and the last input of the unit for new orders, or for cancels.
  abbrev pub ordered : Input (NewOrderSingle F) → Market F → Market F
  ordered i m = record m {
    mutex = record m.mutex { queue = m.mutex.queue ++ i.execution_id ∷ [] };
    new_order_input = m.new_order_input ++ i ∷ [];
  }

  abbrev pub requested : Input (OrderCancelRequest F) → Market F → Market F
  requested i m = record m {
    mutex = record m.mutex { queue = m.mutex.queue ++ i.execution_id ∷ [] };
    cancel_input = m.cancel_input ++ i ∷ [];
  }

module _ {F M : Type 0} where
  -- A reject for the client of the input, and no change of a market.
  abbrev pub Refused : UnparsedMessage M → Rejection → MarketRouter F → MarketRouter F → Type 0
  Refused i e r r' =
      (r'.markets ≡ r.markets)
      × (r'.error
          ≡ r.error
            ++ record { client = i.client; receive_time = i.receive_time; rejection = e } ∷ [])

  -- What an input of the market comes to, with what the parser made of it, for the type `kind` of messages,
  -- their symbols, and the way they reach a market.
  pub data IsHandled {T : Type 0} (kind : ℕ) (symbol : T → Str)
      (deliver : Input T → Market F → Market F) (id : Str) (i : UnparsedMessage M)
      (r r' : MarketRouter F) : Expected ParseError T → Type 0 where
    malformed :
        (e : ParseError)
        → Refused i
            (session_reject (record {
              ref_seq_num = i.header.msg_seq_num;
              ref_tag_id = e.tag;
              ref_msg_type = some kind;
              session_reject_reason = some e.reason;
              text = some e.text;
            }))
            r
            r'
        → IsHandled kind symbol deliver id i r r' (failed e)
    unknown :
        (t : T)
        → at (symbol t) r.markets ≡ none
        → Refused i
            (business_reject (record {
              ref_seq_num = some i.header.msg_seq_num;
              ref_msg_type = i.header.msg_type;
              business_reject_ref_id = none;
              business_reject_reason = RejectReasonBusiness.unknown_security;
              text = some (codes "Unknown symbol");
            }))
            r
            r'
        → IsHandled kind symbol deliver id i r r' (parsed t)
    delivered :
        (t : T) (m : Market F)
        → at (symbol t) r.markets ≡ some m
        → at (symbol t) r'.markets ≡ some (deliver (ticketed i id t) m)
        → ((s : Str) → s ≢ symbol t → at s r'.markets ≡ at s r.markets)
        → r'.error ≡ r.error
        → IsHandled kind symbol deliver id i r r' (parsed t)

  module _ {T : Type 0} (kind : ℕ) (symbol : T → Str) (deliver : Input T → Market F → Market F)
      (id : Str) (i : UnparsedMessage M) (r : MarketRouter F) (t : T) where
    to_no_market :
        at (symbol t) r.markets ≡ none
        → redirect_to_market (symbol t) (deliver (ticketed i id t)) i r
          ≡ append_error i (business_reject (unknown_symbol i)) r
    unfolding redirect_to_market append_error
    to_no_market h = rw (redirect_to_market, h) refl

    to_its_market :
        (m : Market F)
        → at (symbol t) r.markets ≡ some m
        → redirect_to_market (symbol t) (deliver (ticketed i id t)) i r
          ≡ record r { markets = modify (symbol t) (deliver (ticketed i id t)) r.markets }
    unfolding redirect_to_market modify
    to_its_market m h = rw (redirect_to_market, h) refl

    redirect_to_market-IsHandled :
        IsHandled kind symbol deliver id i r
          (redirect_to_market (symbol t) (deliver (ticketed i id t)) i r)
          (parsed t)
    unfolding append_error unknown_symbol
    redirect_to_market-IsHandled = elim (Option-cases (at (symbol t) r.markets)) [
      | inl e ↦
          subst (λ r'. IsHandled kind symbol deliver id i r r' (parsed t)) (sym (to_no_market e))
            (unknown t e (refl, refl))
      | inr (m, e) ↦
          subst (λ r'. IsHandled kind symbol deliver id i r r' (parsed t)) (sym (to_its_market m e))
            (delivered t m e (at-modify (symbol t) (deliver (ticketed i id t)) r.markets m e)
              (λ s n. at-modify_other (symbol t) s (deliver (ticketed i id t)) r.markets n) refl)
    ]

  module _ (new_order_from : M → Expected ParseError (NewOrderSingle F))
      (cancel_from : M → Expected ParseError (OrderCancelRequest F)) (id : Str)
      (i : UnparsedMessage M) (r : MarketRouter F) where
    order-IsHandled :
        (p : Expected ParseError (NewOrderSingle F))
        → IsHandled MsgType.new_order_single
            (λ t. t.symbol)
            ordered
            id
            i
            r
            (redirect_parsed_order id i (parse_message MsgType.new_order_single p i.header) r)
            p
    unfolding redirect_parsed_order parse_message append_error with_id redirect_new_order allow
    order-IsHandled (failed e) = malformed e (refl, refl)
    order-IsHandled (parsed t) =
        redirect_to_market-IsHandled MsgType.new_order_single (λ u. u.symbol) ordered id i r t

    cancel-IsHandled :
        (p : Expected ParseError (OrderCancelRequest F))
        → IsHandled MsgType.order_cancel_request
            (λ t. t.symbol)
            requested
            id
            i
            r
            (redirect_parsed_cancel id i (parse_message MsgType.order_cancel_request p i.header) r)
            p
    unfolding redirect_parsed_cancel parse_message append_error with_id redirect_cancel allow
    cancel-IsHandled (failed e) = malformed e (refl, refl)
    cancel-IsHandled (parsed t) =
        redirect_to_market-IsHandled MsgType.order_cancel_request (λ u. u.symbol) requested id i r t

    order_handled :
        i.header.msg_type ≡ MsgType.new_order_single
        → market_on_input new_order_from cancel_from id i r
          ≡ redirect_parsed_order id i
              (parse_message MsgType.new_order_single (new_order_from i.message) i.header)
              r
    unfolding market_on_input process_new_order_single
    order_handled h = ground arith

    cancel_handled :
        i.header.msg_type ≡ MsgType.order_cancel_request
        → market_on_input new_order_from cancel_from id i r
          ≡ redirect_parsed_cancel id i
              (parse_message MsgType.order_cancel_request (cancel_from i.message) i.header)
              r
    unfolding market_on_input process_order_cancel_request
    cancel_handled h = ground arith

    passed_over :
        i.header.msg_type ≢ MsgType.new_order_single
        → i.header.msg_type ≢ MsgType.order_cancel_request
        → market_on_input new_order_from cancel_from id i r ≡ r
    unfolding market_on_input
    passed_over h k = ground arith

    type_cases :
        (i.header.msg_type ≡ MsgType.new_order_single)
        ⊎ ((i.header.msg_type ≡ MsgType.order_cancel_request)
            ⊎ ((i.header.msg_type ≢ MsgType.new_order_single)
                × (i.header.msg_type ≢ MsgType.order_cancel_request)))
    type_cases = elim (Bool-cases (i.header.msg_type == MsgType.new_order_single)) [
      | inl e ↦ inl (ground arith)
      | inr e ↦ elim (Bool-cases (i.header.msg_type == MsgType.order_cancel_request)) [
        | inl f ↦ inr (inl (ground arith))
        | inr f ↦ inr (inr ((λ k. ground arith), λ k. ground arith))
      ]
    ]

    -- An input of the router is a new order, a cancel request, or nothing to it. Of a new order and of a cancel
    -- request: where its fields do not parse, its client gets the session reject that says why; where no market has the
    -- symbol of the message, the business reject; otherwise the market of that symbol gets the ticket `id` as its last and the
    -- message as the last input of the unit for its type, and the other markets and the rejects stay as they are.
    pub market_on_input-IsHandled :
        let r' = market_on_input new_order_from cancel_from id i r in
        ((i.header.msg_type ≡ MsgType.new_order_single)
          × IsHandled MsgType.new_order_single
              (λ t. t.symbol)
              ordered
              id
              i
              r
              r'
              (new_order_from i.message))
        ⊎ (((i.header.msg_type ≡ MsgType.order_cancel_request)
              × IsHandled MsgType.order_cancel_request
                  (λ t. t.symbol)
                  requested
                  id
                  i
                  r
                  r'
                  (cancel_from i.message))
            ⊎ ((i.header.msg_type ≢ MsgType.new_order_single)
                × (i.header.msg_type ≢ MsgType.order_cancel_request)
                × (r' ≡ r)))
    market_on_input-IsHandled = elim type_cases [
      | inl h ↦ inl (
        h,
        subst
            (λ r'.
              IsHandled MsgType.new_order_single (λ t. t.symbol) ordered id i r r'
                (new_order_from i.message))
            (sym (order_handled h)) (order-IsHandled (new_order_from i.message)),
      )
      | inr (inl h) ↦ inr (
          inl (
            h,
            subst
                (λ r'.
                  IsHandled MsgType.order_cancel_request (λ t. t.symbol) requested id i r r'
                    (cancel_from i.message))
                (sym (cancel_handled h)) (cancel-IsHandled (cancel_from i.message)),
          ))
      | inr (inr (h, k)) ↦ inr (inr (h, k, passed_over h k))
    ]
