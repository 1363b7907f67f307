-- ===== src/Strategy/Risk.antt =====
-- `evaluate_risk` of includes/strategy-oms/trader.hpp. Positions and profits, `int64_t`, are held by
-- their distance from INT64_MIN. Quantities have 32 bits, to which they are cut here; an overflow of an
-- `int64_t` gives `none`.
pub mod Limits
use hft_architecture.Base.{
  ℕ, ◌+◌, ◌-◌, ◌%◌, Bool, true, false, not, ◌&&◌, Option, none, some, ltb, leb, ◌==◌, if◌then◌else◌,
  u32_mod, sub32,
}
use hft_architecture.Order.{is_buy}
use hft_architecture.Exchange.Clob.{buy_request, sell_request, cancel_request, update_request}
use hft_architecture.Strategy.{
  plus64, minus64, sum64, OutboundOrderRequest, not_an_update, reducing, increasing, OrderStatus,
  good, stopped, halted, too_many_orders, too_much_exposure, too_much_loss, zero64,
}

pub record RiskData : Type 0 where
  pub net_position : ℕ
  pub realized_pnl : ℕ
  pub unrealized_pnl : ℕ
  pub orders_sent_in_window : ℕ
  pub max_position : ℕ
  pub max_loss_allowed : ℕ
  pub max_orders_per_window : ℕ
  pub is_halted : Bool

unfoldable pub reduces_exposure : OutboundOrderRequest → Bool
reduces_exposure o = elim o.request.kind [
  | cancel_request ↦ true
  | update_request ↦ elim o.quantity_change [
    | reducing ↦ true
    | increasing ↦ false
    | not_an_update ↦ false
  ]
  | buy_request ↦ false
  | sell_request ↦ false
]

infixl 5 ◌>>=◌
abbrev pub ◌>>=◌ : {A B : Type 0} → Option A → (A → Option B) → Option B
none >>= f = none
some a >>= f = f a

-- `net_position + signed_delta`. The difference of an update is of 32-bit unsigned numbers.
unfoldable pub position_after : OutboundOrderRequest → ℕ → Option ℕ
position_after o net = elim o.request.kind [
  | buy_request ↦ plus64 net (o.request.quantity % u32_mod)
  | sell_request ↦ minus64 net (o.request.quantity % u32_mod)
  | cancel_request ↦ some net
  | update_request ↦ elim o.quantity_change [
    | increasing ↦
        if is_buy o.side
        then plus64 net (sub32 o.request.quantity o.previous_quantity)
        else minus64 net (sub32 o.request.quantity o.previous_quantity)
    | reducing ↦ some net
    | not_an_update ↦ some net
  ]
]

-- `std::abs(position) > limit`, with the limit by its distance too. INT64_MIN has no absolute value.
unfoldable pub beyond : ℕ → ℕ → Option Bool
beyond position limit =
    if position == 0
    then none
    else some (ltb limit (if leb zero64 position then position else zero64 + (zero64 - position)))

-- the position limit and the loss limit
unfoldable pub check_limits : RiskData → ℕ → Option OrderStatus
check_limits risk position = beyond position risk.max_position >>= λ far.
    if far
    then some too_much_exposure
    else (sum64 risk.realized_pnl risk.unrealized_pnl >>= λ pnl.
        some (if leb pnl risk.max_loss_allowed then too_much_loss else good))

-- No snapshot is one that could not be read before a stop was requested.
unfoldable pub evaluate_risk : Bool → Option RiskData → OutboundOrderRequest → Option OrderStatus
evaluate_risk true snapshot o = some stopped
evaluate_risk false none o = some stopped
evaluate_risk false (some risk) o =
    let reduces = reduces_exposure o in
    if risk.is_halted && not reduces
    then some halted
    else if not reduces && leb risk.max_orders_per_window risk.orders_sent_in_window
    then some too_many_orders
    else if reduces
    then some good
    else position_after o risk.net_position >>= λ position. check_limits risk position
