-- ===== src/Strategy/Tests.antt =====
-- The maker's quotes, its queue and the risk gate at concrete inputs.
use hft_architecture.Base.{
  ◌+◌, ◌-◌, ◌^◌, ◌≤◌, ◌<◌, ◌≡◌, refl, ◌↔◌, ◌⊎◌, true, false, some, ◌++◌, arith, length,
}
use hft_architecture.Order.{buy, sell, zero_price}
use hft_architecture.Book.State.{OrderSnapshot}
use hft_architecture.Exchange.Clob.{buy_request}
use hft_architecture.Strategy.{OutboundOrderRequest, not_an_update, good, zero64}
use hft_architecture.Strategy.Quotes.{
  midpoint, Quoted, price_new_order_pair, price_new_order_pair-quotes,
}
use hft_architecture.Strategy.Risk.{
  RiskData, reduces_exposure, position_after, check_limits, beyond, evaluate_risk,
}
use hft_architecture.Strategy.Risk.Limits.{InRange, Permitted, good_iff}
use hft_architecture.Strategy.{plus64, sum64, OrderStatus}
use hft_architecture.Strategy.MarketMaker.{
  PassiveMarketMaker, StrategyOrderBuffer, buffer_size, place, placed_count, queue_cancel_orders,
}
use hft_architecture.Strategy.MarketMaker.Queueing.{cancels, queue_cancel_orders_lem}
use hft_architecture.Ring.SingleThread.Laws.{IsValid, contents}

abbrev bbo : OrderSnapshot
bbo = record {
  best_bid = record { price = zero_price + 350; quantity = 10 };
  best_offer = record { price = zero_price + 380; quantity = 20 };
}

quotes-bbo :
    price_new_order_pair bbo
    ≡ some (some (record { bid_price = zero_price + 355; offer_price = zero_price + 375 }))
unfolding price_new_order_pair midpoint
quotes-bbo = refl

price_new_order_pair-quotes_example : Quoted bbo (price_new_order_pair bbo)
price_new_order_pair-quotes_example = price_new_order_pair-quotes bbo (omega arith) (omega arith)

abbrev risk : RiskData
risk = record {
  net_position = zero64 + 40;
  realized_pnl = zero64 + 5;
  unrealized_pnl = zero64 - 3;
  orders_sent_in_window = 2;
  max_position = zero64 + 100;
  max_loss_allowed = zero64 - 50;
  max_orders_per_window = 10;
  is_halted = false;
}

abbrev bid : OutboundOrderRequest
bid = record {
  request = record { order_id = 1; price = zero_price + 355; quantity = 60; kind = buy_request };
  quantity_change = not_an_update;
  previous_quantity = 0;
  side = buy;
}

bid_passes : evaluate_risk false (some risk) bid ≡ some good
unfolding evaluate_risk reduces_exposure position_after check_limits beyond plus64 sum64
bid_passes = refl

risk-InRange : InRange risk
risk-InRange = record {
  above = omega arith;
  below = omega arith;
  profit = (omega arith, omega arith);
  limit = omega arith;
}

good_iff_example :
    (s : OrderStatus) × (evaluate_risk false (some risk) bid ≡ some s)
    × ((s ≡ good) ↔ Permitted risk 60 0)
good_iff_example = good_iff risk risk-InRange bid (omega arith) (omega arith) (λ e. cc)

abbrev maker : PassiveMarketMaker
maker = record {
  buy_order = place 1 (zero_price + 355) buy;
  sell_order = place 2 (zero_price + 375) sell;
  net_filled_quantity = zero64;
  next_client_id = 3;
}

-- a buffer with one request, its cursors about to wrap
abbrev queue : StrategyOrderBuffer
queue = record { buffer = λ i. bid; head = 0; tail = 2 ^ 64 - 1 }

queue-IsValid : IsValid buffer_size queue
queue-IsValid = record { head_in = omega arith; tail_in = omega arith; size_in = omega arith }

queue_cancel_orders_lem_example :
    (m' : PassiveMarketMaker) × (b' : StrategyOrderBuffer) × IsValid buffer_size b'
    × (((length (contents buffer_size queue) + placed_count maker ≤ buffer_size)
          × (queue_cancel_orders maker queue ≡ some (true, m', b'))
          × (placed_count m' ≡ 0)
          × (contents buffer_size b'
              ≡ contents buffer_size queue
                ++ (cancels maker.buy_order ++ cancels maker.sell_order)))
        ⊎ ((buffer_size < length (contents buffer_size queue) + placed_count maker)
            × (queue_cancel_orders maker queue ≡ some (false, maker, queue))))
queue_cancel_orders_lem_example = queue_cancel_orders_lem maker queue queue-IsValid
