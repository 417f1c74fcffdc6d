-- ===== src/Market/Release.antt =====
-- The end of a worker's step: the lock is released, and a reply sent.
use fix4_2_protocol.Base.{Str, false, List, ◌∷◌, ◌≡◌, refl}
use fix4_2_protocol.Core.Float.{Float}
use fix4_2_protocol.OrderBook.{Outcome, returned}
use fix4_2_protocol.OrderBook.Index.{IsValid}
use fix4_2_protocol.Thread.QueueMutex.{unlock}
use fix4_2_protocol.Market.{Market, Input, Reply, append, unlock_market, released, and_then}

module _ {F : Type 0} where
  -- The release of a lock that is held takes the first ticket away.
  pub unlock_market_eq :
      (m : Market F) (x : Str) (xs : List Str)
      → m.mutex.queue ≡ x ∷ xs
      → unlock_market m ≡ returned (record m { mutex = record { queue = xs; locked = false } })
  unfolding unlock_market released unlock
  unlock_market_eq m x xs h = rw h refl

  -- After a worker's step: the first ticket is gone, the lock is open, and the units' queues are as they were.
  abbrev pub Released : Market F → Market F → List Str → Type 0
  Released m m' xs =
      (m'.mutex ≡ record { queue = xs; locked = false })
      × (m'.new_order_input ≡ m.new_order_input)
      × (m'.cancel_input ≡ m.cancel_input)
      × (m'.new_orders ≡ m.new_orders)
      × (m'.cancels ≡ m.cancels)

module _ {F : Type 0} ⦃fl : Float F⦄ where
  abbrev pub Worked : Outcome (Market F) → Market F → List Str → Type 0
  Worked r m xs = (m' : Market F) × (r ≡ returned m') × Released m m' xs × IsValid m'.ob

  pub unlock_returns :
      (m : Market F) (x : Str) (xs : List Str)
      → m.mutex.queue ≡ x ∷ xs
      → IsValid m.ob
      → Worked (unlock_market m) m xs
  unlock_returns m x xs h v = (_, unlock_market_eq m x xs h, (refl, refl, refl, refl, refl), v)

  -- A reply after the release.
  pub reply_returns :
      {M : Type 0} (i : Input M) (reply : Market F → Reply F) (m : Market F) (x : Str)
      (xs : List Str)
      → m.mutex.queue ≡ x ∷ xs
      → IsValid m.ob
      → Worked (and_then (unlock_market m) (λ m'. returned (append i (reply m') m'))) m xs
  unfolding append and_then
  reply_returns i reply m x xs h v =
      let m' : Market F = record m { mutex = record { queue = xs; locked = false } } in
      (
        append i (reply m') m',
        rw (unlock_market_eq m x xs h) refl,
        (refl, refl, refl, refl, refl),
        v,
      )
