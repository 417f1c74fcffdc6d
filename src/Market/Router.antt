-- ===== src/Market/Router.antt =====
-- server/src/ProcessUnit/MarketRouter.cpp and its .inl, shared/Message-v2 `parseMessage`: a message of the
-- market is parsed, gets an execution id, and goes to the market of its symbol. What `from_string` of a
-- message class makes of the fields is a parameter; the id, which is drawn at random, is an argument.
pub mod Delivery
pub mod Addressed
pub mod System
mod Tests
use fix4_2_protocol.Base.{
  ℕ, Str, codes, ◌==◌, if◌then◌else◌, Option, none, some, List, [], ◌∷◌, ◌++◌, str_eq,
}
use fix4_2_protocol.Core.Enum.{RejectReasonSession, RejectReasonBusiness}
use fix4_2_protocol.Message.Types.{
  Header, SessionReject, BusinessReject, NewOrderSingle, OrderCancelRequest,
}
use fix4_2_protocol.Message.MsgType
use fix4_2_protocol.Market.{Market, Client, Input}
use fix4_2_protocol.Market.Step.{redirect_new_order, redirect_cancel}

-- `fix::RejectError`, with its reason as `parseMessage` casts it.
pub record ParseError : Type 0 where
  pub reason : RejectReasonSession
  pub tag : Option ℕ
  pub text : Str

pub data Expected (E T : Type 0) : Type 0 where
  parsed : T → Expected E T
  failed : E → Expected E T

-- `parseMessage<T>`, where `T::Type` is `kind`.
unfoldable pub parse_message :
    {T : Type 0} → ℕ → Expected ParseError T → Header → Expected SessionReject T
parse_message kind (parsed t) h = parsed t
parse_message kind (failed e) h = failed (record {
  ref_seq_num = h.msg_seq_num;
  ref_tag_id = e.tag;
  ref_msg_type = some kind;
  session_reject_reason = some e.reason;
  text = some e.text;
})

pub data Rejection : Type 0 where
  session_reject : SessionReject → Rejection
  business_reject : BusinessReject → Rejection

-- `Context<data::StringOutput>` of a reject, before `to_string`.
pub record Rejected : Type 0 where
  pub client : Client
  pub receive_time : ℕ
  pub rejection : Rejection

module _ (M : Type 0) where
  -- `Context<data::UnparsedMessage>`
  pub record UnparsedMessage : Type 0 where
    pub client : Client
    pub receive_time : ℕ
    pub header : Header
    pub message : M

module _ (F : Type 0) where
  -- `m_markets` leads to the markets themselves; `m_error` is the output queue of rejects.
  pub record MarketRouter : Type 0 where
    pub markets : List (Str × Market F)
    pub error : List Rejected

module _ {A : Type 0} where
  -- `m_markets.contains` and `at`
  unfoldable pub at : Str → List (Str × A) → Option A
  at s [] = none
  at s ((k, a) ∷ xs) = if str_eq k s then some a else at s xs

  -- `at`, with what is done to the market there.
  unfoldable pub modify : Str → (A → A) → List (Str × A) → List (Str × A)
  modify s f [] = []
  modify s f ((k, a) ∷ xs) =
      let rest = modify s f xs in if str_eq k s then (k, f a) ∷ xs else (k, a) ∷ rest

  -- `emplace`: a symbol that is there keeps its market.
  unfoldable pub emplace : Str → A → List (Str × A) → List (Str × A)
  unfolding at
  emplace s a xs = elim (at s xs) [ none ↦ xs ++ (s, a) ∷ [] | some b ↦ xs ]

-- `registerMarket`
unfoldable pub register_market : {F : Type 0} → Str → Market F → MarketRouter F → MarketRouter F
unfolding emplace
register_market s m r = record r { markets = emplace s m r.markets }

module _ {M : Type 0} where
  -- The `BusinessReject` of `redirectToMarket`
  unfoldable pub unknown_symbol : UnparsedMessage M → BusinessReject
  unknown_symbol i = record {
    ref_seq_num = some i.header.msg_seq_num;
    ref_msg_type = i.header.msg_type;
    business_reject_ref_id = none;
    business_reject_reason = RejectReasonBusiness.unknown_security;
    text = some (codes "Unknown symbol");
  }

  -- What the queues of a unit get.
  unfoldable pub with_id : {T : Type 0} → UnparsedMessage M → Str → T → Input T
  with_id i id t = record {
    client = i.client;
    receive_time = i.receive_time;
    execution_id = id;
    header = i.header;
    message = t;
  }

module _ {F M : Type 0} where
  -- `m_error.append`
  unfoldable pub append_error : UnparsedMessage M → Rejection → MarketRouter F → MarketRouter F
  append_error i e r = record r {
    error =
        r.error ++ record { client = i.client; receive_time = i.receive_time; rejection = e } ∷ [];
  }

  -- `redirectToMarket`, with the symbol of the message and the queues that it goes to.
  unfoldable pub redirect_to_market :
      Str → (Market F → Market F) → UnparsedMessage M → MarketRouter F → MarketRouter F
  unfolding at modify append_error unknown_symbol
  redirect_to_market symbol deliver i r = elim (at symbol r.markets) [
    | none ↦ append_error i (business_reject (unknown_symbol i)) r
    | some m ↦ record r { markets = modify symbol deliver r.markets }
  ]

  -- `processNewOrderSingle` and `processOrderCancelRequest`, after `parseMessage`.
  unfoldable pub redirect_parsed_order :
      Str
      → UnparsedMessage M
      → Expected SessionReject (NewOrderSingle F)
      → MarketRouter F
      → MarketRouter F
  unfolding redirect_to_market redirect_new_order with_id append_error
  redirect_parsed_order id i (failed e) r = append_error i (session_reject e) r
  redirect_parsed_order id i (parsed t) r =
      redirect_to_market t.symbol (redirect_new_order (with_id i id t)) i r

  unfoldable pub redirect_parsed_cancel :
      Str
      → UnparsedMessage M
      → Expected SessionReject (OrderCancelRequest F)
      → MarketRouter F
      → MarketRouter F
  unfolding redirect_to_market redirect_cancel with_id append_error
  redirect_parsed_cancel id i (failed e) r = append_error i (session_reject e) r
  redirect_parsed_cancel id i (parsed t) r =
      redirect_to_market t.symbol (redirect_cancel (with_id i id t)) i r

  module _ (new_order_from : M → Expected ParseError (NewOrderSingle F))
      (cancel_from : M → Expected ParseError (OrderCancelRequest F)) where
    unfoldable pub process_new_order_single :
        Str → UnparsedMessage M → MarketRouter F → MarketRouter F
    unfolding parse_message redirect_parsed_order
    process_new_order_single id i r =
        redirect_parsed_order id i
          (parse_message MsgType.new_order_single (new_order_from i.message) i.header) r

    unfoldable pub process_order_cancel_request :
        Str → UnparsedMessage M → MarketRouter F → MarketRouter F
    unfolding parse_message redirect_parsed_cancel
    process_order_cancel_request id i r =
        redirect_parsed_cancel id i
          (parse_message MsgType.order_cancel_request (cancel_from i.message) i.header) r

    -- `onInput`
    unfoldable pub market_on_input : Str → UnparsedMessage M → MarketRouter F → MarketRouter F
    unfolding process_new_order_single process_order_cancel_request
    market_on_input id i r =
        if i.header.msg_type == MsgType.new_order_single
        then process_new_order_single id i r
        else if i.header.msg_type == MsgType.order_cancel_request
        then process_order_cancel_request id i r
        else r
