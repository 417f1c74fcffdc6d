-- ===== src/Market/Router/Tests.antt =====
-- A market router with one market.
use fix4_2_protocol.Base.{ℕ, Str, codes, ◌≢◌, ◌⊎◌, str_eq, refl, some, [], ◌∷◌, ◌≡◌}
use fix4_2_protocol.Core.Enum.{RejectReasonSession}
use fix4_2_protocol.Core.Float.{naturals}
use fix4_2_protocol.Message.Types.{NewOrderSingle, OrderCancelRequest}
use fix4_2_protocol.Message.MsgType
use fix4_2_protocol.OrderBook.{remembered}
use fix4_2_protocol.Market.Router.Addressed.{IsAddressed}
use fix4_2_protocol.Market.Tests.{
  a_header, a_client, sell_five, cancel_it, market_0, market_1, market_2, order_checked,
}
use fix4_2_protocol.Market.Router.{
  ParseError, Expected, parsed, failed, UnparsedMessage, MarketRouter, market_on_input,
  register_market, modify, at,
}
use fix4_2_protocol.Market.Router.Delivery.{
  IsHandled, ordered, requested, market_on_input-IsHandled,
}
use fix4_2_protocol.Market.Router.System.{
  AllAddressed, SystemRun, registered, routed, worked, rest, step, SystemRun-AllAddressed,
}

-- Messages whose text is empty lack their fields.
abbrev order_from : Str → Expected ParseError (NewOrderSingle ℕ)
order_from [] = failed (record {
  reason = RejectReasonSession.required_tag_missing;
  tag = some 55;
  text = codes "Missing tag";
})
order_from (c ∷ s) = parsed sell_five.message

abbrev request_from : Str → Expected ParseError (OrderCancelRequest ℕ)
request_from s = parsed cancel_it.message

abbrev an_order : UnparsedMessage Str
an_order = record {
  client = a_client;
  receive_time = 0;
  header = a_header b'D';
  message = codes "55=ACME";
}

abbrev router_0 : MarketRouter ℕ
router_0 = record { markets = []; error = [] }

abbrev router_1 : MarketRouter ℕ
router_1 = register_market (codes "ACME") market_0 router_0

abbrev router_2 : MarketRouter ℕ
router_2 = market_on_input order_from request_from (codes "x1") an_order router_1

abbrev router_3 : MarketRouter ℕ
router_3 = record router_2 { markets = modify (codes "ACME") (λ n. market_2) router_2.markets }

order_routed : router_2.markets ≡ (codes "ACME", market_1) ∷ []
unfolding register_market market_on_input str_eq
order_routed = refl

market_on_input-IsHandled_example :
    ((an_order.header.msg_type ≡ MsgType.new_order_single)
      × IsHandled MsgType.new_order_single
          (λ t. t.symbol)
          ordered
          (codes "x1")
          an_order
          router_1
          router_2
          (order_from an_order.message))
    ⊎ (((an_order.header.msg_type ≡ MsgType.order_cancel_request)
          × IsHandled MsgType.order_cancel_request
              (λ t. t.symbol)
              requested
              (codes "x1")
              an_order
              router_1
              router_2
              (request_from an_order.message))
        ⊎ ((an_order.header.msg_type ≢ MsgType.new_order_single)
            × (an_order.header.msg_type ≢ MsgType.order_cancel_request)
            × (router_2 ≡ router_1)))
market_on_input-IsHandled_example =
    market_on_input-IsHandled order_from request_from (codes "x1") an_order router_1

router_0-AllAddressed : AllAddressed router_0.markets
unfolding at
router_0-AllAddressed s m h = cc

market_0-IsAddressed : IsAddressed (codes "ACME") market_0
market_0-IsAddressed = record { order_input = tt; cancel_input = tt; orders = tt; cancels = tt }

to_router_3 : SystemRun order_from request_from router_0 router_3
unfolding register_market market_on_input str_eq at
to_router_3 = step (registered (codes "ACME") market_0 market_0-IsAddressed) (
    step (routed (codes "x1") an_order)
      (step (worked (codes "ACME") {m = market_1} {m' = market_2} refl order_checked) rest))

SystemRun-AllAddressed_example : AllAddressed router_3.markets
SystemRun-AllAddressed_example =
    SystemRun-AllAddressed order_from request_from router_0-AllAddressed to_router_3
