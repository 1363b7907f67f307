-- ===== src/Strategy/Engine/Reports.antt =====
-- Each operation of the book reports a change of its best prices.
use hft_architecture.Base.{
  ℕ, ◌≡◌, refl, subst, inl, inr, Option, none, some, ltb, ◌==◌, if◌then◌else◌, Bool-cases, add64,
  sub64, sub32,
}
use hft_architecture.Order.{Order, MarketEvent, EventType, is_buy, null_index}
use hft_architecture.Book.HashMap
use hft_architecture.Book.OrderPool
use hft_architecture.Order.{RestingOrder}
use hft_architecture.Book.State.{
  BookState, OrderSnapshot, Hashes, execute, ◌>>=◌, update_bbo_add, update_bbo_reduce, add,
  open_level, join_level, add_bid_or_offer, close_level, leave_level, purge_order, cancel, trade,
  update_quantity, level_of, index_of, set_level, PriceLevel, no_bid, no_offer, order_cap,
  level_cap,
}
use hft_architecture.Strategy.Engine.Best.{
  Reports, Entered, Reports-bind, Reports-after, update_bbo_add-Reports, remove_bid_or_offer-keeps,
  add_bid_or_offer-keeps, reduced-Kept, bid_Reports, offer_Reports,
}

module _ (h : Hashes) where
  update_bbo_reduce-Reports : (o : Order) (s : BookState) → Reports s.bbo (update_bbo_reduce h o s)
  unfolding update_bbo_reduce
  update_bbo_reduce-Reports o s = elim (Bool-cases (is_buy o.side)) [
    | inl e ↦ rw e (bid_Reports s _ (reduced-Kept _ s.bids no_bid o s.bbo.best_bid))
    | inr e ↦ rw e (offer_Reports s _ (reduced-Kept _ s.offers no_offer o s.bbo.best_offer))
  ]

  -- with the best prices of another book that has the same
  reduce_Reports :
      (bbo : OrderSnapshot) (o : Order) (s : BookState)
      → s.bbo ≡ bbo
      → Reports bbo (update_bbo_reduce h o s)
  reduce_Reports bbo o s same =
      subst (λ b. Reports b (update_bbo_reduce h o s)) same (update_bbo_reduce-Reports o s)

  add_Reports :
      (bbo : OrderSnapshot) (o : Order) (s : BookState)
      → s.bbo ≡ bbo
      → Reports bbo (let (u, b) = update_bbo_add o s.bbo in some (u, record s { bbo = b }))
  add_Reports bbo o s same =
      subst (λ x. Reports x (let (u, b) = update_bbo_add o s.bbo in some (u, record s { bbo = b })))
        same (update_bbo_add-Reports o s)

  purge_order-Reports :
      (index : ℕ) (resting : RestingOrder) (s : BookState)
      → Reports s.bbo (purge_order h index resting s)
  unfolding purge_order close_level leave_level
  purge_order-Reports index resting s = Reports-bind s.bbo (level_of h s o.price) _ (λ level.
      Reports-after s.bbo (update_bbo_reduce h o (left level))
        (λ t. record t { order_pool = OrderPool.free index t.order_pool }) (λ t. refl)
        (reduce_Reports s.bbo o (left level) (kept level)))
    where
      o : Order
      o = resting.order

      closed : PriceLevel → BookState
      closed level =
          let total = sub64 level.total_quantity o.quantity in
          let level' : PriceLevel = record level { total_quantity = total } in
          let s₁ = set_level h o.price level' s in
          if total == 0 then close_level h o s₁ else leave_level h resting level' s₁

      left : PriceLevel → BookState
      left level = record (closed level) {
        order_map = (HashMap.remove h.hash_id order_cap o.order_id (closed level).order_map).1;
      }

      kept : (level : PriceLevel) → (closed level).bbo ≡ s.bbo
      kept level = elim (Bool-cases (sub64 level.total_quantity o.quantity == 0)) [
        | inl e ↦ rw e (remove_bid_or_offer-keeps o _)
        | inr e ↦ rw e refl
      ]

  cancel-Reports : (id : ℕ) (s : BookState) → Reports s.bbo (cancel h id s)
  unfolding cancel
  cancel-Reports id s =
      Reports-bind s.bbo (index_of h s id) _ (λ index. purge_order-Reports index _ s)

  trade-Reports : (id quantity : ℕ) (s : BookState) → Reports s.bbo (trade h id quantity s)
  unfolding trade
  trade-Reports id quantity s = Reports-bind s.bbo (index_of h s id) _ (λ index.
      let resting = OrderPool.get index s.order_pool in
      let o = resting.order in
      elim (Bool-cases (o.quantity == quantity)) [
        | inl e ↦ rw e (purge_order-Reports index resting s)
        | inr e ↦ rw e (
            Reports-bind s.bbo (level_of h s o.price) _ (λ level.
              let s₁ =
                set_level h o.price
                  (record level { total_quantity = sub64 level.total_quantity quantity }) s in
              Reports-after s.bbo (update_bbo_reduce h (record o { quantity = quantity }) s₁)
                (λ t. record t {
                  order_pool =
                      OrderPool.set index
                        (record resting {
                          order = record o { quantity = sub32 o.quantity quantity };
                        })
                        t.order_pool;
                })
                (λ t. refl) (reduce_Reports s.bbo (record o { quantity = quantity }) s₁ refl)))
      ])

  update_quantity-Reports :
      (id quantity : ℕ) (s : BookState) → Reports s.bbo (update_quantity h id quantity s)
  unfolding update_quantity
  update_quantity-Reports id quantity s = Reports-bind s.bbo (index_of h s id) _ (λ index.
      let resting = OrderPool.get index s.order_pool in
      let o = resting.order in
      let changed : RestingOrder = record resting { order = record o { quantity = quantity } } in
      elim (Bool-cases (quantity == 0)) [
        | inl e ↦ rw e (purge_order-Reports index resting s)
        | inr e ↦ rw e (
            Reports-bind s.bbo (level_of h s o.price) _ (λ level.
              elim (Bool-cases (ltb quantity o.quantity)) [
                | inl f ↦
                    let delta = sub32 o.quantity quantity in
                    let s₁ =
                      set_level h o.price
                        (record level { total_quantity = sub64 level.total_quantity delta }) s in
                    rw f (
                      add_Reports s.bbo (record o { quantity = delta })
                        (record s₁ { order_pool = OrderPool.set index changed s₁.order_pool }) refl)
                | inr f ↦
                    let delta = sub32 quantity o.quantity in
                    let s₁ =
                      set_level h o.price
                        (record level { total_quantity = add64 level.total_quantity delta }) s in
                    rw f (
                      Reports-after s.bbo (update_bbo_reduce h (record o { quantity = delta }) s₁)
                        (λ t. record t { order_pool = OrderPool.set index changed t.order_pool })
                        (λ t. refl) (reduce_Reports s.bbo (record o { quantity = delta }) s₁ refl))
              ]))
      ])

  Entered-open_level :
      (o : Order) (index : ℕ) (s : BookState) (m : Option PriceLevel)
      → Entered s.bbo (elim m [
        | none ↦ open_level h o index s
        | some level ↦ some (join_level h o index level s)
      ])
  unfolding Entered open_level join_level
  Entered-open_level o index s none = opened (
      HashMap.add h.hash_price level_cap o.price
        (record { head = index; tail = index; total_quantity = o.quantity }) s.price_levels)
    where
      opened :
          (m : Option (HashMap.ClosedHashMap PriceLevel))
          → Entered s.bbo
              (m >>= λ levels. some (add_bid_or_offer o (record s { price_levels = levels })))
      opened none = tt
      opened (some levels) = add_bid_or_offer-keeps o (record s { price_levels = levels })
  Entered-open_level o index s (some level) = refl

  best_of_Entered :
      (bbo : OrderSnapshot) (o : Order) (m : Option BookState)
      → Entered bbo m
      → Reports bbo
          (m >>= λ t. let (u, b) = update_bbo_add o t.bbo in some (u, record t { bbo = b }))
  unfolding Entered Reports
  best_of_Entered bbo o none k = tt
  best_of_Entered bbo o (some t) k = add_Reports bbo o t k

  add-Reports : (event : MarketEvent) (s : BookState) → Reports s.bbo (add h event s)
  unfolding add
  add-Reports event s =
      let o = event.order in
      let resting : RestingOrder = record { order = o; previous = null_index; next = null_index } in
      Reports-bind s.bbo (OrderPool.allocate resting s.order_pool) _ (λ (index, pool).
        Reports-bind s.bbo (HashMap.add h.hash_id order_cap o.order_id index s.order_map) _ (λ ids.
          let entered : BookState = record s { order_pool = pool; order_map = ids } in
          best_of_Entered s.bbo o _
            (Entered-open_level o index entered (level_of h entered o.price))))

  pub execute-Reports : (event : MarketEvent) (s : BookState) → Reports s.bbo (execute h event s)
  unfolding execute
  execute-Reports event s = by_kind event.kind
    where
      by_kind :
          (k : EventType)
          → Reports s.bbo (elim k [
            | EventType.add ↦ add h event s
            | EventType.cancel ↦ cancel h event.order.order_id s
            | EventType.trade ↦ trade h event.order.order_id event.order.quantity s
            | EventType.update ↦ update_quantity h event.order.order_id event.order.quantity s
          ])
      by_kind EventType.add = add-Reports event s
      by_kind EventType.cancel = cancel-Reports event.order.order_id s
      by_kind EventType.trade = trade-Reports event.order.order_id event.order.quantity s
      by_kind EventType.update = update_quantity-Reports event.order.order_id event.order.quantity s
