-- ===== src/Strategy/Trader/Maker.antt =====
-- The market maker as the strategy of the trader.
use hft_architecture.Base.{
  ℕ, ◌+◌, ◌≤◌, ◌≡◌, refl, ap, inl, inr, Bool, true, false, some, ◌++◌, arith, ◌==◌, if◌then◌else◌,
  Bool-cases, length, length-append, sub64,
}
use hft_architecture.Order.{is_buy}
use hft_architecture.Exchange.Clob.{
  update_request, buy_request, sell_request, cancel_request, RequestType,
}
use hft_architecture.Ring.SingleThread.{size, try_push}
use hft_architecture.Ring.SingleThread.Laws.{IsValid, try_push-IsValid, contents, length-contents}
use hft_architecture.Strategy.{
  OutboundOrderRequest, OrderStatus, good, stopped, halted, too_many_orders, too_much_exposure,
  too_much_loss,
}
use hft_architecture.Strategy.MarketMaker.{
  PassiveMarketMaker, PlacedOrder, StrategyOrderBuffer, buffer_size, placed_count, count, take_back,
  unplace, restore, cancel_one, cancel_of, cancel_for_risk, queue_cancel_orders, get_orders, update,
  notify_invalid,
}
use hft_architecture.Strategy.MarketMaker.Queueing.{
  size-IsCapacity, queue_cancel_orders_lem, cancels,
}
use hft_architecture.Strategy.Trader.{Strategy}
use hft_architecture.Strategy.Trader.Orders.{IsTame}

abbrev pub market_maker : Strategy PassiveMarketMaker
market_maker = record { get_orders = get_orders; update = update; notify_invalid = notify_invalid }

unplace-count : (o : PlacedOrder) (id : ℕ) → count (unplace o id).placed ≤ count o.placed
unplace-count o id = ground arith

take_back-count :
    (rejected : OutboundOrderRequest) (m : PassiveMarketMaker)
    → placed_count (take_back rejected m) ≤ placed_count m
unfolding take_back
take_back-count rejected m = by_kind rejected.request.kind
  where
    by_kind :
        (k : RequestType)
        → placed_count (elim k [
          | update_request ↦
              if rejected.request.order_id == m.buy_order.placed_order.order_id
              then record m { buy_order = restore m.buy_order rejected.previous_quantity }
              else if rejected.request.order_id == m.sell_order.placed_order.order_id
              then record m { sell_order = restore m.sell_order rejected.previous_quantity }
              else m
          | buy_request ↦ record m { buy_order = unplace m.buy_order rejected.request.order_id }
          | sell_request ↦ record m { sell_order = unplace m.sell_order rejected.request.order_id }
          | cancel_request ↦ m
        ])
          ≤ placed_count m
    by_kind update_request = ground arith
    by_kind buy_request = omega (arith, unplace-count m.buy_order rejected.request.order_id)
    by_kind sell_request = omega (arith, unplace-count m.sell_order rejected.request.order_id)
    by_kind cancel_request = omega arith

push_lem :
    (x : OutboundOrderRequest) (b : StrategyOrderBuffer)
    → IsValid buffer_size b
    → let (done, b') = try_push buffer_size x b in
      size buffer_size b' ≤ size buffer_size b + count done
unfolding try_push
push_lem x b v = elim (Bool-cases (sub64 b.head b.tail == buffer_size)) [
  | inl e ↦ rw e (omega arith)
  | inr e ↦ rw e (omega (arith, v.head_in, v.tail_in))
]

queued_lem :
    (o : PlacedOrder) (b : StrategyOrderBuffer) (done : Bool) (b' : StrategyOrderBuffer)
    → o.placed ≡ true
    → size buffer_size b' ≤ size buffer_size b + count done
    → IsValid buffer_size b'
    → let r : PlacedOrder × StrategyOrderBuffer =
        if done then (record o { placed = false }, b') else (o, b') in
      IsValid buffer_size r.1
      × (size buffer_size r.1 + count r.0.placed ≤ size buffer_size b + count o.placed)
queued_lem o b true b' e le v = (v, omega (arith, le, ap count e))
queued_lem o b false b' e le v = (v, omega (arith, le))

-- A cancel request takes the place of a placed order.
cancel_one_lem :
    (o : PlacedOrder) (b : StrategyOrderBuffer)
    → IsValid buffer_size b
    → let (o', b') = cancel_one o b in
      IsValid buffer_size b'
      × (size buffer_size b' + count o'.placed ≤ size buffer_size b + count o.placed)
unfolding cancel_one
cancel_one_lem o b v = elim (Bool-cases o.placed) [
  | inl e ↦
      let (done, b') = try_push buffer_size (cancel_of o) b in
      rw e (
        queued_lem (record o { placed = true }) b done b' refl (push_lem (cancel_of o) b v)
          (try_push-IsValid size-IsCapacity (cancel_of o) b v))
  | inr e ↦ rw e (v, omega arith)
]

cancel_for_risk_lem :
    (rejected : OutboundOrderRequest) (m : PassiveMarketMaker) (b : StrategyOrderBuffer)
    → IsValid buffer_size b
    → let (m', b') = cancel_for_risk rejected m b in
      IsValid buffer_size b'
      × (size buffer_size b' + placed_count m' ≤ size buffer_size b + placed_count m)
unfolding cancel_for_risk
cancel_for_risk_lem rejected m b v = elim (Bool-cases (is_buy rejected.side)) [
  | inl e ↦ let (v', le) = cancel_one_lem m.buy_order b v in rw e (v', omega (arith, le))
  | inr e ↦ let (v', le) = cancel_one_lem m.sell_order b v in rw e (v', omega (arith, le))
]

length-cancels : (o : PlacedOrder) → length (cancels o) ≡ count o.placed
length-cancels o = elim (Bool-cases o.placed) [
  | inl e ↦ rw e (omega arith)
  | inr e ↦ rw e (omega arith)
]

queue_cancel_orders-tame :
    (m : PassiveMarketMaker) (b : StrategyOrderBuffer)
    → IsValid buffer_size b
    → (done : Bool) × (m' : PassiveMarketMaker) × (b' : StrategyOrderBuffer) × (queue_cancel_orders
          m b
        ≡ some (done, m', b'))
      × IsValid buffer_size b'
      × (size buffer_size b' + placed_count m' ≤ size buffer_size b + placed_count m)
queue_cancel_orders-tame m b v =
    let (m', b', v', which) = queue_cancel_orders_lem m b v in
    let before = length-contents size-IsCapacity b in
    let after = length-contents size-IsCapacity b' in
    elim which [
      | inl (room, run, off, held) ↦ (
        true,
        m',
        b',
        run,
        v',
        omega (
          arith,
          before,
          after,
          off,
          ap length held,
          length-append (contents buffer_size b) (cancels m.buy_order ++ cancels m.sell_order),
          length-append (cancels m.buy_order) (cancels m.sell_order),
          length-cancels m.buy_order,
          length-cancels m.sell_order,
        ),
      )
      | inr (full, run) ↦ (false, m, b, run, v, omega arith)
    ]

-- The market maker is tame, with a budget of one cancel request for each order that it has placed.
pub market_maker-IsTame : IsTame market_maker placed_count
unfolding notify_invalid
market_maker-IsTame = record { answers = answer }
  where
    answer :
        (o : OutboundOrderRequest) (reason : OrderStatus) (m : PassiveMarketMaker)
        (b : StrategyOrderBuffer)
        → IsValid buffer_size b
        → (m' : PassiveMarketMaker) × (b' : StrategyOrderBuffer) × (notify_invalid o reason m b
            ≡ some (m', b'))
          × IsValid buffer_size b'
          × (size buffer_size b' + placed_count m' ≤ size buffer_size b + placed_count m)
    answer o halted m b v =
        let (done, m', b', run, v', le) = queue_cancel_orders-tame (take_back o m) b v in
        (m', b', rw run refl, v', omega (arith, le, take_back-count o m))
    answer o too_much_loss m b v =
        let (done, m', b', run, v', le) = queue_cancel_orders-tame (take_back o m) b v in
        (m', b', rw run refl, v', omega (arith, le, take_back-count o m))
    answer o too_much_exposure m b v =
        let (v', le) = cancel_for_risk_lem o (take_back o m) b v in
        (_, _, refl, v', omega (arith, le, take_back-count o m))
    answer o good m b v = (_, _, refl, v, omega (arith, take_back-count o m))
    answer o stopped m b v = (_, _, refl, v, omega (arith, take_back-count o m))
    answer o too_many_orders m b v = (_, _, refl, v, omega (arith, take_back-count o m))
