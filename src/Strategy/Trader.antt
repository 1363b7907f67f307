-- ===== src/Strategy/Trader.antt =====
-- Trader of includes/strategy-oms/trader.hpp, for any strategy that the concept Strategy of
-- includes/strategy-oms/strategy.hpp admits. What the stop token and the risk data answer to the n-th
-- question is an argument. A risk check that overflows, a
-- strategy that fails, and a loop that runs out of fuel, give `none`.
-- `send_to_exchange` does nothing yet, in the source too.
pub mod Orders
pub mod Gate
pub mod Maker
mod Tests
use hft_architecture.Base.{ℕ, zero, suc, ◌+◌, Bool, Option, none, some}
use hft_architecture.Book.State.{OrderSnapshot}
use hft_architecture.Exchange.Clob.{OrderRequest}
use hft_architecture.Ring.Lazy.{
  LazyRingBuffer, try_get_head_ref, try_get_tail_ref, publish, consume, write_slot, read_slot,
}
use hft_architecture.Ring.SingleThread.{try_front, pop}
use hft_architecture.Strategy.{
  OrderFillUpdate, OutboundOrderRequest, OrderStatus, good, stopped, halted, too_many_orders,
  too_much_exposure, too_much_loss,
}
use hft_architecture.Strategy.Risk.{RiskData, evaluate_risk}
use hft_architecture.Strategy.MarketMaker.{StrategyOrderBuffer, buffer_size}

-- the concept
pub record Strategy (M : Type 0) : Type 0 where
  pub get_orders : OrderSnapshot → M → StrategyOrderBuffer → Option (M × StrategyOrderBuffer)
  pub update : OrderFillUpdate → M → StrategyOrderBuffer → Option (M × StrategyOrderBuffer)
  pub notify_invalid :
      OutboundOrderRequest
      → OrderStatus
      → M
      → StrategyOrderBuffer
      → Option (M × StrategyOrderBuffer)

pub data TraderError : Type 0 where
  trade_buffer_full : TraderError

-- `asked` counts the questions for the risk data.
pub record Trader (M : Type 0) : Type 0 where
  pub strategy : M
  pub order_buffer : StrategyOrderBuffer
  pub trade_buffer : LazyRingBuffer OrderRequest
  pub update_buffer : LazyRingBuffer OrderFillUpdate
  pub asked : ℕ

abbrev pub Reading : Type 0
Reading = Bool × Option RiskData

infixl 5 ◌>>=◌
abbrev pub ◌>>=◌ : {A B : Type 0} → Option A → (A → Option B) → Option B
none >>= f = none
some a >>= f = f a

module _ {M : Type 0} (strategy : Strategy M) (risk : ℕ → Reading) (trade_cap update_cap : ℕ) where
  abbrev pub Result : Type 0
  Result = Option (Option TraderError × Trader M)

  abbrev pub status_of : ℕ → OutboundOrderRequest → Option OrderStatus
  status_of n o = let (stop, snapshot) = risk n in evaluate_risk stop snapshot o

  -- an order that may go out, with the slot of the trade buffer
  abbrev pub forward : (Trader M → Result) → OutboundOrderRequest → Option ℕ → Trader M → Result
  forward rest o none t = some (some trade_buffer_full, t)
  forward rest o (some i) t = rest (record t {
    trade_buffer = publish (write_slot i o.request t.trade_buffer);
    order_buffer = pop buffer_size t.order_buffer;
  })

  abbrev pub reject : (Trader M → Result) → OutboundOrderRequest → OrderStatus → Trader M → Result
  reject rest o reason t =
      strategy.notify_invalid o reason t.strategy (pop buffer_size t.order_buffer) >>= λ (m, b).
      rest (record t { strategy = m; order_buffer = b })

  -- the body of the loop, for the order at the front and what the risk check said of it
  abbrev pub place_one :
      (Trader M → Result) → OutboundOrderRequest → OrderStatus → Trader M → Result
  place_one rest o stopped t = some (none, t)
  place_one rest o good t = forward rest o (try_get_head_ref trade_cap t.trade_buffer) t
  place_one rest o halted t = reject rest o halted t
  place_one rest o too_many_orders t = reject rest o too_many_orders t
  place_one rest o too_much_exposure t = reject rest o too_much_exposure t
  place_one rest o too_much_loss t = reject rest o too_much_loss t

  abbrev pub on_front : (Trader M → Result) → Option OutboundOrderRequest → Trader M → Result
  on_front rest none t = some (none, t)
  on_front rest (some o) t =
      status_of t.asked o >>= λ status. place_one rest o status (record t { asked = t.asked + 1 })

  unfoldable pub place_new_orders : ℕ → Trader M → Result
  place_new_orders zero t = elim (try_front buffer_size t.order_buffer) [
    | none ↦ some (none, t)
    | some _ ↦ none
  ]
  place_new_orders (suc fuel) t =
      on_front (λ t'. place_new_orders fuel t') (try_front buffer_size t.order_buffer) t

  -- a round of `forward_oms_updates`: an update that is waiting goes to the strategy, and what the
  -- strategy asks for is placed
  unfoldable pub forward_update : ℕ → OrderFillUpdate → Trader M → Result
  forward_update fuel u t = strategy.update u t.strategy t.order_buffer >>= λ (m, b).
      place_new_orders fuel
        (record t { strategy = m; order_buffer = b; update_buffer = consume t.update_buffer })

  abbrev pub go_on : (Trader M → Result) → Option TraderError × Trader M → Result
  go_on rest (none, t) = rest t
  go_on rest (some e, t) = some (some e, t)

  unfoldable pub forward_oms_updates : ℕ → ℕ → Trader M → Result
  forward_oms_updates zero fuel t = elim (try_get_tail_ref update_cap t.update_buffer) [
    | none ↦ some (none, t)
    | some _ ↦ none
  ]
  forward_oms_updates (suc n) fuel t = elim (try_get_tail_ref update_cap t.update_buffer) [
    | none ↦ some (none, t)
    | some i ↦
        forward_update fuel (read_slot i t.update_buffer) t
        >>= go_on (λ t'. forward_oms_updates n fuel t')
  ]

  -- a round of the loop in `start`, with the best prices that it waited for
  unfoldable pub start_round : ℕ → ℕ → OrderSnapshot → Trader M → Result
  start_round n fuel bbo t =
      forward_oms_updates n fuel t
      >>= go_on (λ t₁. strategy.get_orders bbo t₁.strategy t₁.order_buffer >>= λ (m, b).
          place_new_orders fuel (record t₁ { strategy = m; order_buffer = b }))
