-- ===== src/Strategy/MarketMaker.antt =====
-- PassiveMarketMaker of includes/strategy-oms/market-maker.hpp and src/strategy-oms/market-maker.cpp.
-- A failed assertion or a signed overflow gives `none`. The counter of ClientOrderIDGenerator
-- (src/strategy-oms/client-id-gen.cpp), a static member, is a field of the maker.
pub mod Queueing
use hft_architecture.Base.{
  ℕ, ◌+◌, ◌-◌, ◌^◌, min, max, Bool, true, false, not, ◌&&◌, ◌||◌, Option, none, some, ltb, ◌==◌,
  if◌then◌else◌, add64,
}
use hft_architecture.Order.{Order, Side, buy, sell, is_buy, zero_price}
use hft_architecture.Ring.SingleThread as Ring
use hft_architecture.Ring.SingleThread.{SingleThreadRingBuffer}
use hft_architecture.Book.State.{OrderSnapshot, ◌>>=◌}
use hft_architecture.Exchange.Clob.{buy_request, sell_request, cancel_request, update_request}
use hft_architecture.Strategy.{
  plus64, minus64, OrderFillUpdate, OutboundOrderRequest, not_an_update, reducing, increasing,
  OrderStatus, good, stopped, halted, too_many_orders, too_much_exposure, too_much_loss, zero64,
}
use hft_architecture.Strategy.Quotes.{price_new_order_pair, midpoint}

-- `status` is whether the order is placed.
pub record PlacedOrder : Type 0 where
  pub placed : Bool
  pub placed_order : Order

pub record PassiveMarketMaker : Type 0 where
  pub buy_order : PlacedOrder
  pub sell_order : PlacedOrder
  pub net_filled_quantity : ℕ
  pub next_client_id : ℕ

abbrev pub StrategyOrderBuffer : Type 0
StrategyOrderBuffer = SingleThreadRingBuffer OutboundOrderRequest

abbrev pub buffer_size : ℕ
buffer_size = 2 ^ 5

abbrev pub max_allowed_drift : ℕ
max_allowed_drift = 2

abbrev pub base_quantity : ℕ
base_quantity = 75

abbrev pub min_quantity : ℕ
min_quantity = 25

abbrev pub rebalance_threshold : ℕ
rebalance_threshold = 25

abbrev pub max_additional_exit : ℕ
max_additional_exit = 150

abbrev pub min_bid_price : ℕ
min_bid_price = zero_price + 1

-- the distance between two numbers, `std::abs` of their difference
abbrev pub distance : ℕ → ℕ → ℕ
distance a b = if ltb a b then b - a else a - b

unfoldable pub new_order_request : PlacedOrder → OutboundOrderRequest
new_order_request o = record {
  request = record {
    order_id = o.placed_order.order_id;
    price = o.placed_order.price;
    quantity = o.placed_order.quantity;
    kind = if is_buy o.placed_order.side then buy_request else sell_request;
  };
  quantity_change = not_an_update;
  previous_quantity = 0;
  side = o.placed_order.side;
}

abbrev pub cancel_of : PlacedOrder → OutboundOrderRequest
cancel_of o = record {
  request = record {
    order_id = o.placed_order.order_id;
    price = zero_price;
    quantity = 0;
    kind = cancel_request;
  };
  quantity_change = not_an_update;
  previous_quantity = 0;
  side = o.placed_order.side;
}

unfoldable pub should_place_new_orders : OrderSnapshot → PassiveMarketMaker → Option Bool
should_place_new_orders bbo m =
    if not m.buy_order.placed || not m.sell_order.placed
    then some true
    else midpoint bbo.best_offer.price bbo.best_bid.price >>= λ mid.
        midpoint m.buy_order.placed_order.price m.sell_order.placed_order.price >>= λ quoted.
        some (ltb max_allowed_drift (distance mid quoted))

abbrev pub count : Bool → ℕ
count placed = if placed then 1 else 0

abbrev pub placed_count : PassiveMarketMaker → ℕ
placed_count m = count m.buy_order.placed + count m.sell_order.placed

unfoldable pub queue_cancel :
    PlacedOrder → StrategyOrderBuffer → Option (PlacedOrder × StrategyOrderBuffer)
queue_cancel o b =
    if o.placed
    then (let (queued, b') = Ring.try_push buffer_size (cancel_of o) b in
        if queued then some (record o { placed = false }, b') else none)
    else some (o, b)

-- what a call returns, the maker and the buffer after it
abbrev pub Result : Type 0
Result = Option (Bool × PassiveMarketMaker × StrategyOrderBuffer)

unfoldable pub queue_cancel_orders : PassiveMarketMaker → StrategyOrderBuffer → Result
queue_cancel_orders m b =
    if ltb (Ring.available buffer_size b) (placed_count m)
    then some (false, m, b)
    else (queue_cancel m.buy_order b >>= λ (bought, b₁).
        queue_cancel m.sell_order b₁ >>= λ (sold, b₂).
        some (true, record m { buy_order = bought; sell_order = sold }, b₂))

abbrev pub place : ℕ → ℕ → Side → PlacedOrder
place id price side = record {
  placed = true;
  placed_order = record { order_id = id; price = price; quantity = base_quantity; side = side };
}

unfoldable pub queue_new_order_pair :
    OrderSnapshot → PassiveMarketMaker → StrategyOrderBuffer → Result
queue_new_order_pair bbo m b =
    if m.buy_order.placed || m.sell_order.placed
    then none
    else (price_new_order_pair bbo >>= λ prices. elim prices [
      | none ↦ some (true, m, b)
      | some p ↦
          if ltb p.bid_price min_bid_price
          then some (true, m, b)
          else if ltb (Ring.available buffer_size b) 2
          then some (false, m, b)
          else (let bid = place m.next_client_id p.bid_price buy in
              let offer = place (add64 m.next_client_id 1) p.offer_price sell in
              let (bid_queued, b₁) = Ring.try_push buffer_size (new_order_request bid) b in
              let (offer_queued, b₂) = Ring.try_push buffer_size (new_order_request offer) b₁ in
              if bid_queued && offer_queued
              then some (
                true,
                record m {
                  buy_order = bid;
                  sell_order = offer;
                  next_client_id = add64 (add64 m.next_client_id 1) 1;
                },
                b₂,
              )
              else none)
    ])

-- whether it queued what it had to, the order and the buffer
unfoldable pub queue_quantity_update :
    PlacedOrder → ℕ → StrategyOrderBuffer → Bool × PlacedOrder × StrategyOrderBuffer
queue_quantity_update o quantity b =
    if not o.placed || o.placed_order.quantity == quantity
    then (true, o, b)
    else (let previous = o.placed_order.quantity in
        let request : OutboundOrderRequest = record {
          request = record {
            order_id = o.placed_order.order_id;
            price = zero_price;
            quantity = quantity;
            kind = update_request;
          };
          quantity_change = if ltb previous quantity then increasing else reducing;
          previous_quantity = previous;
          side = o.placed_order.side;
        } in
        let (queued, b') = Ring.try_push buffer_size request b in
        if queued
        then (true, record o { placed_order = record o.placed_order { quantity = quantity } }, b')
        else (false, o, b'))

-- the new quantities of the bid and the offer
unfoldable pub exposure_quantities : ℕ → ℕ × ℕ
exposure_quantities net =
    let imbalance = min (distance net zero64) max_additional_exit in
    let smaller =
      max min_quantity (if ltb imbalance base_quantity then base_quantity - imbalance else 0) in
    let larger = base_quantity + imbalance in
    if ltb zero64 net then (smaller, larger) else (larger, smaller)

unfoldable pub rebalance_exposure :
    PassiveMarketMaker → StrategyOrderBuffer → PassiveMarketMaker × StrategyOrderBuffer
rebalance_exposure m b =
    if ltb (distance m.net_filled_quantity zero64) rebalance_threshold
    then (m, b)
    else (let (bid, offer) = exposure_quantities m.net_filled_quantity in
        let (_, bought, b₁) = queue_quantity_update m.buy_order bid b in
        let (_, sold, b₂) = queue_quantity_update m.sell_order offer b₁ in
        (record m { buy_order = bought; sell_order = sold }, b₂))

unfoldable pub get_orders :
    OrderSnapshot
    → PassiveMarketMaker
    → StrategyOrderBuffer
    → Option (PassiveMarketMaker × StrategyOrderBuffer)
get_orders bbo m b = should_place_new_orders bbo m >>= λ should.
    if not should
    then some (m, b)
    else if ltb (Ring.available buffer_size b) (placed_count m + 2)
    then some (m, b)
    else (queue_cancel_orders m b >>= λ (cancelled, m₁, b₁).
        if not cancelled
        then some (m₁, b₁)
        else (queue_new_order_pair bbo m₁ b₁ >>= λ (queued, m₂, b₂). some (m₂, b₂)))

-- a fill of one of the two orders
unfoldable pub fill : ℕ → PlacedOrder → PlacedOrder
fill filled o =
    let quantity = o.placed_order.quantity - filled in
    record {
      placed = not (quantity == 0);
      placed_order = record o.placed_order { quantity = quantity };
    }

abbrev pub is_update_of : PlacedOrder → OrderFillUpdate → Bool
is_update_of o u = o.placed && o.placed_order.order_id == u.order_id

abbrev pub net_after : PlacedOrder → ℕ → ℕ → Option ℕ
net_after o filled net =
    if is_buy o.placed_order.side then plus64 net filled else minus64 net filled

unfoldable pub update :
    OrderFillUpdate
    → PassiveMarketMaker
    → StrategyOrderBuffer
    → Option (PassiveMarketMaker × StrategyOrderBuffer)
update u m b =
    if is_update_of m.buy_order u
    then (let filled = min u.filled_quantity m.buy_order.placed_order.quantity in
        net_after m.buy_order filled m.net_filled_quantity >>= λ net. some (
          rebalance_exposure
            (record m { buy_order = fill filled m.buy_order; net_filled_quantity = net }) b))
    else if is_update_of m.sell_order u
    then (let filled = min u.filled_quantity m.sell_order.placed_order.quantity in
        net_after m.sell_order filled m.net_filled_quantity >>= λ net. some (
          rebalance_exposure
            (record m { sell_order = fill filled m.sell_order; net_filled_quantity = net }) b))
    else some (m, b)

unfoldable pub cancel_one : PlacedOrder → StrategyOrderBuffer → PlacedOrder × StrategyOrderBuffer
cancel_one o b =
    if not o.placed
    then (o, b)
    else (let (queued, b') = Ring.try_push buffer_size (cancel_of o) b in
        if queued then (record o { placed = false }, b') else (o, b'))

unfoldable pub cancel_for_risk :
    OutboundOrderRequest
    → PassiveMarketMaker
    → StrategyOrderBuffer
    → PassiveMarketMaker × StrategyOrderBuffer
cancel_for_risk rejected m b =
    if is_buy rejected.side
    then (let (o, b') = cancel_one m.buy_order b in (record m { buy_order = o }, b'))
    else (let (o, b') = cancel_one m.sell_order b in (record m { sell_order = o }, b'))

abbrev pub unplace : PlacedOrder → ℕ → PlacedOrder
unplace o id = if o.placed_order.order_id == id then record o { placed = false } else o

abbrev pub restore : PlacedOrder → ℕ → PlacedOrder
restore o quantity = record o { placed_order = record o.placed_order { quantity = quantity } }

-- the first part of `notify_invalid`, which takes the rejected request back
unfoldable pub take_back : OutboundOrderRequest → PassiveMarketMaker → PassiveMarketMaker
take_back rejected m = elim rejected.request.kind [
  | update_request ↦
      if rejected.request.order_id == m.buy_order.placed_order.order_id
      then record m { buy_order = restore m.buy_order rejected.previous_quantity }
      else if rejected.request.order_id == m.sell_order.placed_order.order_id
      then record m { sell_order = restore m.sell_order rejected.previous_quantity }
      else m
  | buy_request ↦ record m { buy_order = unplace m.buy_order rejected.request.order_id }
  | sell_request ↦ record m { sell_order = unplace m.sell_order rejected.request.order_id }
  | cancel_request ↦ m
]

unfoldable pub notify_invalid :
    OutboundOrderRequest
    → OrderStatus
    → PassiveMarketMaker
    → StrategyOrderBuffer
    → Option (PassiveMarketMaker × StrategyOrderBuffer)
notify_invalid rejected reason m b =
    let m₁ = take_back rejected m in
    elim reason [
      | halted ↦ queue_cancel_orders m₁ b >>= λ (_, m₂, b₂). some (m₂, b₂)
      | too_much_loss ↦ queue_cancel_orders m₁ b >>= λ (_, m₂, b₂). some (m₂, b₂)
      | too_much_exposure ↦ some (cancel_for_risk rejected m₁ b)
      | good ↦ some (m₁, b)
      | stopped ↦ some (m₁, b)
      | too_many_orders ↦ some (m₁, b)
    ]
