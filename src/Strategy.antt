-- ===== src/Strategy.antt =====
-- The strategy: includes/strategy-oms and src/strategy-oms. This file has the types of strategy.hpp.
pub mod Trader
pub mod Engine
pub mod Quotes
pub mod MarketMaker
pub mod Risk
mod Tests
use hft_architecture.Base.{ℕ, ◌+◌, ◌-◌, ◌^◌, Option, none, some, ltb, leb, if◌then◌else◌, u64_mod}
use hft_architecture.Order.{Side}
use hft_architecture.Exchange.Clob.{OrderRequest}

pub record OrderFillUpdate : Type 0 where
  pub order_id : ℕ
  pub filled_quantity : ℕ

pub data QuantityChange : Type 0 where
  not_an_update reducing increasing : QuantityChange

pub record OutboundOrderRequest : Type 0 where
  pub request : OrderRequest
  pub quantity_change : QuantityChange
  pub previous_quantity : ℕ
  pub side : Side

pub data OrderStatus : Type 0 where
  good stopped halted too_many_orders too_much_exposure too_much_loss : OrderStatus

-- An `int64_t` is held by its distance from INT64_MIN, as a price is by its distance from INT32_MIN.
abbrev pub zero64 : ℕ
zero64 = 2 ^ 63

-- A sum and a difference with a number that is not negative, and a sum of two signed numbers. A result
-- that 64 bits do not hold is undefined.
unfoldable pub plus64 : ℕ → ℕ → Option ℕ
plus64 x n = if ltb (x + n) u64_mod then some (x + n) else none

unfoldable pub minus64 : ℕ → ℕ → Option ℕ
minus64 x n = if leb n x then some (x - n) else none

unfoldable pub sum64 : ℕ → ℕ → Option ℕ
sum64 x y =
    if leb zero64 (x + y)
    then (if ltb (x + y) (zero64 + u64_mod) then some (x + y - zero64) else none)
    else none
