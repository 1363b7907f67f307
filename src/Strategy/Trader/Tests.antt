-- ===== src/Strategy/Trader/Tests.antt =====
-- The trader places the orders of the market maker, the second of them under a halt.
use hft_architecture.Base.{
  ℕ, ◌+◌, ◌-◌, ◌≡◌, refl, subst, false, some, arith, ltb, ◌==◌, if◌then◌else◌,
}
use native.Mathlib.Nat.{dvd_of_mod-eq-zero}
use hft_architecture.Order.{buy, sell, zero_price}
use hft_architecture.Exchange.Clob.{buy_request, sell_request}
use hft_architecture.Ring.Window.{IsCapacity}
use hft_architecture.Strategy.{OutboundOrderRequest, not_an_update, zero64}
use hft_architecture.Strategy.MarketMaker.{PassiveMarketMaker, place, placed_count}
use hft_architecture.Strategy.Trader.{Trader, Reading, place_new_orders}
use mathlib.Core.Option.{some-injective}
use hft_architecture.Strategy.Risk.{RiskData}
use hft_architecture.Strategy.Risk.Limits.{InRange}
use hft_architecture.Strategy.Trader.Gate.{place_new_orders-gates}
use hft_architecture.Strategy.Trader.Orders.{PlacedAll}
use hft_architecture.Strategy.Trader.Maker.{market_maker, market_maker-IsTame}

abbrev maker : PassiveMarketMaker
maker = record {
  buy_order = place 1 (zero_price + 355) buy;
  sell_order = place 2 (zero_price + 375) sell;
  net_filled_quantity = zero64;
  next_client_id = 3;
}

abbrev bid : OutboundOrderRequest
bid = record {
  request = record { order_id = 1; price = zero_price + 355; quantity = 75; kind = buy_request };
  quantity_change = not_an_update;
  previous_quantity = 0;
  side = buy;
}

abbrev offer : OutboundOrderRequest
offer = record {
  request = record { order_id = 2; price = zero_price + 375; quantity = 75; kind = sell_request };
  quantity_change = not_an_update;
  previous_quantity = 0;
  side = sell;
}

abbrev trader : Trader PassiveMarketMaker
trader = record {
  strategy = maker;
  order_buffer = record { buffer = λ i. if i == 0 then bid else offer; head = 2; tail = 0 };
  trade_buffer = record { head = 5; tail = 5; buffer = λ i. bid.request };
  update_buffer = record {
    head = 0;
    tail = 0;
    buffer = λ i. record { order_id = 0; filled_quantity = 0 };
  };
  asked = 0;
}

-- trading is halted from the second question on
abbrev risk : ℕ → Reading
risk n = (
  false,
  some (record {
    net_position = zero64;
    realized_pnl = zero64;
    unrealized_pnl = zero64;
    orders_sent_in_window = 0;
    max_position = zero64 + 200;
    max_loss_allowed = zero64 - 1000;
    max_orders_per_window = 10;
    is_halted = ltb 0 n;
  }),
)

four-IsCapacity : IsCapacity 4
four-IsCapacity = record {
  nonzero = omega arith;
  small = omega arith;
  divides = dvd_of_mod-eq-zero 4 refl;
}

risk-InRange : (n : ℕ) (r : RiskData) → (risk n).1 ≡ some r → InRange r
risk-InRange n r q = subst InRange (some-injective _ r q) (record {
  above = omega arith;
  below = omega arith;
  profit = (omega arith, omega arith);
  limit = omega arith;
})

place_new_orders-gates_example :
    PlacedAll market_maker risk 4 placed_count trader
      (place_new_orders market_maker risk 4 4 4 trader)
place_new_orders-gates_example =
    place_new_orders-gates market_maker placed_count market_maker-IsTame risk risk-InRange
      four-IsCapacity 4 4 trader
      (record { head_in = omega arith; tail_in = omega arith; size_in = omega arith })
      (record { head_in = omega arith; tail_in = omega arith; size_in = omega arith }) (omega arith)
