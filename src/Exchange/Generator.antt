-- ===== src/Exchange/Generator.antt =====
-- MarketRequestGenerator of includes/exchange/order-generator.hpp and src/exchange/order-generator.cpp.
-- The random numbers are arguments: what the distribution of the prices draws between two bounds, and
-- the other draws one by one. A price whose computation overflows, and bounds out of order, which the
-- distribution does not admit, give `none`.
use hft_architecture.Base.{
  ℕ, ◌+◌, ◌-◌, ◌^◌, ◌≤◌, min, max, ◌≡◌, refl, Bool, true, false, Option, none, some, List, [], ◌∷◌,
  arith, ltb, leb, ◌==◌, if◌then◌else◌,
}
use hft_architecture.Order.{Side, buy, sell, invalid_order_id, zero_price}
use hft_architecture.Book.State
use hft_architecture.Book.State.{OrderSnapshot, Hashes, no_bid, no_offer, ◌>>=◌}
use hft_architecture.Exchange.Clob.{
  Clob, OrderRequest, RequestType, buy_request, sell_request, cancel_request, Submitted, id,
  order_does_not_exist, submit,
}
use hft_architecture.Exchange.RandomContainer.{RandomContainer, add, remove_random}

abbrev pub default_buy_price : ℕ
default_buy_price = zero_price + 350

abbrev pub default_sell_price : ℕ
default_sell_price = zero_price + 650

abbrev pub min_price : ℕ
min_price = zero_price + 1

abbrev pub max_price : ℕ
max_price = zero_price + 1000

abbrev pub price_variance : ℕ
price_variance = 10

abbrev pub large_price_variance : ℕ
large_price_variance = 20

abbrev pub max_active_orders : ℕ
max_active_orders = 2 ^ 13

abbrev pub best_bid_of : OrderSnapshot → ℕ
best_bid_of s = if s.best_bid.price == no_bid then default_buy_price else s.best_bid.price

abbrev pub best_ask_of : OrderSnapshot → ℕ
best_ask_of s = if s.best_offer.price == no_offer then default_sell_price else s.best_offer.price

-- a difference and a sum of prices
abbrev pub below : ℕ → ℕ → Option ℕ
below price variance = if leb variance price then some (price - variance) else none

abbrev pub above : ℕ → ℕ → Option ℕ
above price variance = if ltb (price + variance) (2 ^ 32) then some (price + variance) else none

abbrev pub around : ℕ → Option (ℕ × ℕ)
around price =
    below price price_variance >>= λ low. above price price_variance >>= λ high. some (low, high)

-- the bounds, before they are cut to the range of the prices
abbrev pub bounds : Side → Bool → OrderSnapshot → Option (ℕ × ℕ)
bounds buy false s = around (best_bid_of s)
bounds sell false s = around (best_ask_of s)
bounds buy true s =
    above (best_ask_of s) large_price_variance >>= λ high. some (best_ask_of s, high)
bounds sell true s = below (best_bid_of s) large_price_variance >>= λ low. some (low, best_bid_of s)

-- a draw of the distribution between the bounds
abbrev pub draw : (ℕ → ℕ → ℕ) → ℕ → ℕ → Option ℕ
draw pick low high = if leb low high then some (pick low high) else none

unfoldable pub generate_price : (ℕ → ℕ → ℕ) → Side → Bool → OrderSnapshot → Option ℕ
generate_price pick side aggressive s =
    bounds side aggressive s >>= λ (low, high). draw pick (max low min_price) (min high max_price)

abbrev pub type_of : Side → RequestType
type_of buy = buy_request
type_of sell = sell_request

-- both kinds of order request, which differ in the range of the price and of the quantity
unfoldable pub generate_order_request :
    (ℕ → ℕ → ℕ) → ℕ → Side → Bool → OrderSnapshot → Option OrderRequest
generate_order_request pick quantity side aggressive s =
    generate_price pick side aggressive s >>= λ price.
    some (record { order_id = 0; price = price; quantity = quantity; kind = type_of side })

pub record MarketRequestGenerator : Type 0 where
  pub active_order_ids : RandomContainer ℕ
  pub clob : Clob

-- an order that rests is remembered, if there is room
abbrev pub remember : Submitted → RandomContainer ℕ → RandomContainer ℕ
remember (id order_id) ids =
    if order_id == invalid_order_id then ids else (add max_active_orders order_id ids).1
remember order_does_not_exist ids = ids

module _ (hashes : Hashes) (stopped : ℕ → Bool) where
  -- `generate_and_post_new_order_request`, from where there is room among the active orders
  unfoldable pub post_new_order :
      ℕ → (ℕ → ℕ → ℕ) → ℕ → Side → Bool → MarketRequestGenerator → Option MarketRequestGenerator
  post_new_order fuel pick quantity side aggressive g =
      generate_order_request pick quantity side aggressive g.clob.state.bbo >>= λ request.
      submit hashes stopped fuel request g.clob >>= λ (answer, clob).
      some (record { active_order_ids = remember answer g.active_order_ids; clob = clob })

  -- what is done with an order that was drawn: an order that is gone is dropped, and one that is left
  -- is cancelled
  abbrev pub cancel_drawn :
      (MarketRequestGenerator → Option MarketRequestGenerator)
      → Option ℕ × RandomContainer ℕ
      → MarketRequestGenerator
      → Option MarketRequestGenerator
  cancel_drawn rest (none, ids) g = some g
  cancel_drawn rest (some order_id, ids) g =
      if State.order_exists hashes order_id g.clob.state
      then (submit hashes stopped 0
            (record {
              order_id = order_id;
              price = zero_price;
              quantity = 0;
              kind = cancel_request;
            })
            g.clob
          >>= λ (answer, clob). some (record { active_order_ids = ids; clob = clob }))
      else rest (record g { active_order_ids = ids })

  -- The loop of `generate_and_post_cancel_request`, on the draws of the generator.
  unfoldable pub post_cancel : List ℕ → MarketRequestGenerator → Option MarketRequestGenerator
  post_cancel [] g = some g
  post_cancel (drawn ∷ draws) g =
      cancel_drawn (λ g'. post_cancel draws g') (remove_random drawn g.active_order_ids) g

module _ (pick : ℕ → ℕ → ℕ)
    (within : (low high : ℕ) → low ≤ high → (low ≤ pick low high) × (pick low high ≤ high)) where
  draw_lem :
      (low high : ℕ) → low ≤ high → (p : ℕ) × (draw pick low high ≡ some p) × (low ≤ p) × (p ≤ high)
  draw_lem low high le =
      let ok : leb low high ≡ true = ground arith in
      let (lo, hi) = within low high le in rw ok (pick low high, refl, lo, hi)

  around_lem :
      (price : ℕ)
      → (min_price ≤ price) × (price ≤ max_price)
      → (p : ℕ) × ((around price >>= λ (low, high).
            draw pick (max low min_price) (min high max_price))
          ≡ some p)
        × (min_price ≤ p)
        × (p ≤ max_price)
        × ((price ≤ p + price_variance) × (p ≤ price + price_variance))
  around_lem price (l, h) =
      let down : leb price_variance price ≡ true = ground arith in
      let up : ltb (price + price_variance) (2 ^ 32) ≡ true = ground arith in
      let (p, q, lo, hi) =
        draw_lem (max (price - price_variance) min_price) (min (price + price_variance) max_price)
          (omega arith) in
      rw (down, up) (p, q, omega arith, omega arith, (omega arith, omega arith))

  -- What a price has to be for the side, the best prices, and whether it is to trade at once.
  abbrev pub Priced : Side → Bool → ℕ → ℕ → ℕ → Type 0
  Priced buy false bid ask p = (bid ≤ p + price_variance) × (p ≤ bid + price_variance)
  Priced sell false bid ask p = (ask ≤ p + price_variance) × (p ≤ ask + price_variance)
  Priced buy true bid ask p = (ask ≤ p) × (p ≤ ask + large_price_variance)
  Priced sell true bid ask p = (bid ≤ p + large_price_variance) × (p ≤ bid)

  -- With a best bid and a best offer between the smallest and the largest price, or none of them, and a
  -- distribution that draws between its bounds, every kind of request gets a price, which lies between
  -- the smallest and the largest price. A passive price is no further from the best price of its side than the
  -- variance, and an aggressive one meets the best price of the other side and goes past it by the
  -- large variance at most.
  pub generate_price-bounds :
      (side : Side) (aggressive : Bool) (s : OrderSnapshot)
      → (min_price ≤ best_bid_of s) × (best_bid_of s ≤ max_price)
      → (min_price ≤ best_ask_of s) × (best_ask_of s ≤ max_price)
      → (p : ℕ) × (generate_price pick side aggressive s ≡ some p)
        × (min_price ≤ p)
        × (p ≤ max_price)
        × Priced side aggressive (best_bid_of s) (best_ask_of s) p
  unfolding generate_price
  generate_price-bounds buy false s b a = around_lem (best_bid_of s) b
  generate_price-bounds sell false s b a = around_lem (best_ask_of s) a
  generate_price-bounds buy true s b (la, ha) =
      let up : ltb (best_ask_of s + large_price_variance) (2 ^ 32) ≡ true = ground arith in
      let (p, q, lo, hi) =
        draw_lem (max (best_ask_of s) min_price)
          (min (best_ask_of s + large_price_variance) max_price) (omega arith) in
      rw up (p, q, omega arith, omega arith, (omega arith, omega arith))
  generate_price-bounds sell true s (lb, hb) a =
      let down : leb large_price_variance (best_bid_of s) ≡ true = ground arith in
      let (p, q, lo, hi) =
        draw_lem (max (best_bid_of s - large_price_variance) min_price)
          (min (best_bid_of s) max_price) (omega arith) in
      rw down (p, q, omega arith, omega arith, (omega arith, omega arith))
