-- ===== src/OrderBook/Tick.antt =====
-- server/src/OrderBook.cpp: the direction of the last price change, and the sides that it lets in.
use fix4_2_protocol.Base.{Bool, true, false, if◌then◌else◌}
use fix4_2_protocol.Core.Enum.{Side}
use fix4_2_protocol.Core.Float.{Float}
use fix4_2_protocol.OrderBook.{
  TickDirection, plus_tick, zero_plus_tick, minus_tick, zero_minus_tick, Ticks,
}

-- The last branch of `computeTick`: no change of the price.
unfoldable pub zero_tick : TickDirection → TickDirection
zero_tick plus_tick = zero_plus_tick
zero_tick zero_plus_tick = zero_plus_tick
zero_tick minus_tick = zero_minus_tick
zero_tick zero_minus_tick = zero_minus_tick

-- The two cases of the `switch` in `allowTick`.
unfoldable pub allows_buy_minus : TickDirection → Bool
allows_buy_minus plus_tick = true
allows_buy_minus zero_plus_tick = true
allows_buy_minus _ = false

unfoldable pub allows_sell_plus : TickDirection → Bool
allows_sell_plus minus_tick = true
allows_sell_plus zero_minus_tick = true
allows_sell_plus _ = false

unfoldable pub side_allowed : Side → TickDirection → Bool
unfolding allows_buy_minus allows_sell_plus
side_allowed Side.buy_minus t = allows_buy_minus t
side_allowed Side.sell_plus t = allows_sell_plus t
side_allowed _ t = true

module _ {F : Type 0} ⦃fl : Float F⦄ where
  -- `computeTick()`
  unfoldable pub compute_tick : Ticks F → Ticks F
  unfolding zero_tick
  compute_tick t = record t {
    tick =
        if fl.lt t.lastprice_diff t.lastprice
        then plus_tick
        else if fl.lt t.lastprice t.lastprice_diff
        then minus_tick
        else zero_tick t.tick;
  }

  -- `computeTick(Price)`
  unfoldable pub compute_tick_at : F → Ticks F → Ticks F
  unfolding compute_tick
  compute_tick_at new t = compute_tick (record t { lastprice_diff = t.lastprice; lastprice = new })

  -- `allowTick` updates the tick before it answers.
  unfoldable pub allow_tick : Side → Ticks F → Ticks F × Bool
  unfolding side_allowed
  allow_tick side t = let t' = compute_tick t in (t', side_allowed side t'.tick)
