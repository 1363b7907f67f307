-- ===== src/Order.antt =====
-- includes/order-book/order.hpp: orders, resting orders and market events.
-- A number stands for each field, below the width of its type. A price, an `int32_t`, is held by its
-- distance from INT32_MIN, so that numbers compare as prices do: `zero_price` is the price 0.
use hft_architecture.Base.{ℕ, ◌-◌, ◌^◌, ◌<◌, Bool, true, false, u32_mod, u64_mod}

pub data Side : Type 0 where
  buy sell : Side

pub record Order : Type 0 where
  pub order_id : ℕ
  pub price : ℕ
  pub quantity : ℕ
  pub side : Side

abbrev pub invalid_order_id : ℕ
invalid_order_id = 0

abbrev pub zero_price : ℕ
zero_price = 2 ^ 31

-- RestingOrder, its links indexes into the order pool
pub record RestingOrder : Type 0 where
  pub order : Order
  pub previous : ℕ
  pub next : ℕ

abbrev pub null_index : ℕ
null_index = 2 ^ 32 - 1

pub data EventType : Type 0 where
  add cancel trade update : EventType

pub record MarketEvent : Type 0 where
  pub order : Order
  pub kind : EventType

abbrev pub is_buy : Side → Bool
is_buy buy = true
is_buy sell = false

-- The fields fit the widths of their types.
pub record Fits (o : Order) : Type 0 where
  pub id_in : o.order_id < u64_mod
  pub price_in : o.price < u32_mod
  pub quantity_in : o.quantity < u32_mod
