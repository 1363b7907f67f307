-- ===== src/Strategy/Risk/Limits.antt =====
-- What the gate of evaluate_risk lets pass.
use hft_architecture.Base.{
  ℕ, ◌+◌, ◌-◌, ◌%◌, ◌≤◌, ◌<◌, ◌≡◌, refl, ap, subst, ◌↔◌, inl, inr, Bool, true, false, ◌&&◌, Option,
  some, arith, ltb, leb, ◌==◌, if◌then◌else◌, Bool-cases, u32_mod, u64_mod, sub32,
}
use hft_architecture.Order.{Side, buy, sell}
use hft_architecture.Exchange.Clob.{
  RequestType, buy_request, sell_request, cancel_request, update_request,
}
use hft_architecture.Strategy.{
  plus64, minus64, sum64, QuantityChange, OutboundOrderRequest, not_an_update, reducing, increasing,
  OrderStatus, good, halted, too_many_orders, too_much_exposure, too_much_loss, zero64,
}
use hft_architecture.Strategy.Risk.{
  RiskData, reduces_exposure, position_after, beyond, check_limits, evaluate_risk, ◌>>=◌,
}

-- The position is further from both ends of its range than any quantity, the profits have a sum, and
-- the position limit is not negative.
pub record InRange (risk : RiskData) : Type 0 where
  pub above : u32_mod ≤ risk.net_position
  pub below : risk.net_position + u32_mod ≤ u64_mod
  pub profit :
      (zero64 ≤ risk.realized_pnl + risk.unrealized_pnl)
      × (risk.realized_pnl + risk.unrealized_pnl < zero64 + u64_mod)
  pub limit : zero64 ≤ risk.max_position

-- What has to hold for a request that may buy and may sell so much. With the numbers by their distance
-- from INT64_MIN: -max_position <= net_position + bought - sold <= max_position, and the profit is
-- above max_loss_allowed.
pub record Permitted (risk : RiskData) (bought sold : ℕ) : Type 0 where
  pub running : risk.is_halted ≡ false
  pub in_rate : risk.orders_sent_in_window < risk.max_orders_per_window
  pub long : risk.net_position + bought ≤ risk.max_position + sold
  pub short : zero64 + zero64 + sold ≤ risk.net_position + risk.max_position + bought
  pub in_loss : zero64 + risk.max_loss_allowed < risk.realized_pnl + risk.unrealized_pnl

-- What the gate should let pass, by the kind of the request, how it changes the quantity of a placed
-- order, the side of that order, its new quantity and the one before.
abbrev pub Allowed : RiskData → RequestType → QuantityChange → Side → ℕ → ℕ → Type 0
Allowed risk cancel_request change side new old = Unit
Allowed risk buy_request change side new old = Permitted risk new 0
Allowed risk sell_request change side new old = Permitted risk 0 new
Allowed risk update_request reducing side new old = Unit
Allowed risk update_request not_an_update side new old = Permitted risk 0 0
Allowed risk update_request increasing buy new old = Permitted risk (new - old) 0
Allowed risk update_request increasing sell new old = Permitted risk 0 (new - old)

module _ (risk : RiskData) (range : InRange risk) where
  -- the limits at the position that a request may come to
  limits_lem :
      (bought sold position : ℕ)
      → position + sold ≡ risk.net_position + bought
      → 0 < position
      → (s : OrderStatus) × (check_limits risk position ≡ some s)
        × ((s ≡ good) ↔ (
            (risk.net_position + bought ≤ risk.max_position + sold)
            × (zero64 + zero64 + sold ≤ risk.net_position + risk.max_position + bought)
            × (zero64 + risk.max_loss_allowed < risk.realized_pnl + risk.unrealized_pnl)))
  unfolding check_limits beyond sum64
  limits_lem bought sold position at pos =
      rw (nonzero, ◌>>=◌)
        (elim (Bool-cases far) [
          | inl e ↦ rw e (too_much_exposure, refl, ground (arith, range.limit))
          | inr e ↦
              rw (e, low, high, ◌>>=◌)
                (elim (Bool-cases losing) [
                  | inl l ↦ rw l (too_much_loss, refl, ground (arith, range.profit))
                  | inr l ↦ rw l (good, refl, ground (arith, range.limit, range.profit))
                ])
        ])
    where
      far : Bool
      far =
          ltb risk.max_position
            (if leb zero64 position then position else zero64 + (zero64 - position))

      losing : Bool
      losing = leb (risk.realized_pnl + risk.unrealized_pnl - zero64) risk.max_loss_allowed

      nonzero : (position == 0) ≡ false
      nonzero = ground arith

      low : leb zero64 (risk.realized_pnl + risk.unrealized_pnl) ≡ true
      low = ground (arith, range.profit)

      high : ltb (risk.realized_pnl + risk.unrealized_pnl) (zero64 + u64_mod) ≡ true
      high = ground (arith, range.profit)

  -- a request that adds to the position: the gates on the halt and on the rate, and then the limits
  adds_lem :
      (bought sold : ℕ) (after : Option ℕ) (position : ℕ) (halt : Bool)
      → risk.is_halted ≡ halt
      → after ≡ some position
      → position + sold ≡ risk.net_position + bought
      → 0 < position
      → let result =
          if halt && true
          then some halted
          else if leb risk.max_orders_per_window risk.orders_sent_in_window
          then some too_many_orders
          else after >>= λ p. check_limits risk p in
        (s : OrderStatus) × (result ≡ some s) × ((s ≡ good) ↔ Permitted risk bought sold)
  adds_lem bought sold after position true e q at pos =
      (halted, refl, ((λ x. cc), (λ p. cc (p.running))))
  adds_lem bought sold after position false go q at pos =
      rw (q, ◌>>=◌)
        (elim (Bool-cases (leb risk.max_orders_per_window risk.orders_sent_in_window)) [
          | inl e ↦ rw e (too_many_orders, refl, ((λ x. cc), (λ p. ground (arith, p.in_rate))))
          | inr e ↦
              let (s, run, passes) = limits_lem bought sold position at pos in
              rw e (
                s,
                run,
                (
                  (λ x. record {
                    running = go;
                    in_rate = ground arith;
                    long = (passes.0 x).0;
                    short = (passes.0 x).1;
                    in_loss = (passes.0 x).2;
                  }),
                  (λ p. passes.1 (p.long, p.short, p.in_loss)),
                ),
              )
        ])

  reduces_lem :
      (s : OrderStatus) × ((if risk.is_halted && false then some halted else some good) ≡ some s)
      × ((s ≡ good → Unit {0}) × (Unit {0} → s ≡ good))
  reduces_lem = elim (Bool-cases risk.is_halted) [
    | inl e ↦ rw e (good, refl, ((λ x. tt), (λ x. refl)))
    | inr e ↦ rw e (good, refl, ((λ x. tt), (λ x. refl)))
  ]

  buys_lem : (n : ℕ) → n < u32_mod → plus64 risk.net_position n ≡ some (risk.net_position + n)
  unfolding plus64
  buys_lem n lt = ground (arith, range.below)

  sells_lem : (n : ℕ) → n < u32_mod → minus64 risk.net_position n ≡ some (risk.net_position - n)
  unfolding minus64
  sells_lem n lt = ground (arith, range.above)

  -- What a request of a kind may buy and may sell, where it does not reduce the position.
  Bounded : RequestType → QuantityChange → Side → ℕ → ℕ → Type 0
  Bounded cancel_request change side new old = Unit
  Bounded buy_request change side new old = Permitted risk (new % u32_mod) 0
  Bounded sell_request change side new old = Permitted risk 0 (new % u32_mod)
  Bounded update_request reducing side new old = Unit
  Bounded update_request not_an_update side new old = Permitted risk 0 0
  Bounded update_request increasing buy new old = Permitted risk (sub32 new old) 0
  Bounded update_request increasing sell new old = Permitted risk 0 (sub32 new old)

  gate_lem :
      (id price new old : ℕ) (kind : RequestType) (change : QuantityChange) (side : Side)
      → let o : OutboundOrderRequest = record {
        request = record { order_id = id; price = price; quantity = new; kind = kind };
        quantity_change = change;
        previous_quantity = old;
        side = side;
      } in
        (s : OrderStatus) × (evaluate_risk false (some risk) o ≡ some s)
        × ((s ≡ good) ↔ Bounded kind change side new old)
  unfolding evaluate_risk reduces_exposure position_after Bounded
  gate_lem id price new old cancel_request change side = reduces_lem
  gate_lem id price new old buy_request change side =
      adds_lem _ 0 _ _ risk.is_halted refl (buys_lem (new % u32_mod) (omega arith)) (omega arith)
        (omega (arith, range.above))
  gate_lem id price new old sell_request change side =
      adds_lem 0 _ _ _ risk.is_halted refl (sells_lem (new % u32_mod) (omega arith))
        (omega (arith, range.above)) (omega (arith, range.above))
  gate_lem id price new old update_request reducing side = reduces_lem
  gate_lem id price new old update_request not_an_update side =
      adds_lem 0 0 (some risk.net_position) risk.net_position risk.is_halted refl refl refl
        (omega (arith, range.above))
  gate_lem id price new old update_request increasing buy =
      adds_lem _ 0 _ _ risk.is_halted refl (buys_lem (sub32 new old) (omega arith)) (omega arith)
        (omega (arith, range.above))
  gate_lem id price new old update_request increasing sell =
      adds_lem 0 _ _ _ risk.is_halted refl (sells_lem (sub32 new old) (omega arith))
        (omega (arith, range.above)) (omega (arith, range.above))

  -- With the numbers in range the check never overflows.
  pub evaluate_risk-some :
      (o : OutboundOrderRequest) → (s : OrderStatus) × (evaluate_risk false (some risk) o ≡ some s)
  evaluate_risk-some o =
      let (s, run, _) =
        gate_lem o.request.order_id o.request.price o.request.quantity o.previous_quantity
          o.request.kind o.quantity_change o.side in
      (s, run)

  Bounded-Allowed :
      (kind : RequestType) (change : QuantityChange) (side : Side) (new old : ℕ)
      → new < u32_mod
      → old < u32_mod
      → (change ≡ increasing → old ≤ new)
      → Bounded kind change side new old ≡ Allowed risk kind change side new old
  unfolding Bounded
  Bounded-Allowed cancel_request change side new old hn ho h = refl
  Bounded-Allowed buy_request change side new old hn ho h =
      ap (λ n. Permitted risk n 0) (omega arith)
  Bounded-Allowed sell_request change side new old hn ho h =
      ap (λ n. Permitted risk 0 n) (omega arith)
  Bounded-Allowed update_request reducing side new old hn ho h = refl
  Bounded-Allowed update_request not_an_update side new old hn ho h = refl
  Bounded-Allowed update_request increasing buy new old hn ho h =
      ap (λ n. Permitted risk n 0) (omega (arith, h refl))
  Bounded-Allowed update_request increasing sell new old hn ho h =
      ap (λ n. Permitted risk 0 n) (omega (arith, h refl))

  -- With the numbers of the snapshot in range and quantities of 32 bits, an update that is marked as
  -- an increase being one, the check of a request that was not stopped has an answer without an
  -- overflow. It is `good` exactly for a cancel request, for an update that reduces an order, and for a
  -- request whose quantity, or whose increase, bought or sold as its kind and its side say, leaves the
  -- position within the limit on both sides of zero, while trading is not halted, the rate is below its
  -- limit and the profit above that for losses.
  pub good_iff :
      (o : OutboundOrderRequest)
      → o.request.quantity < u32_mod
      → o.previous_quantity < u32_mod
      → (o.quantity_change ≡ increasing → o.previous_quantity ≤ o.request.quantity)
      → (s : OrderStatus) × (evaluate_risk false (some risk) o ≡ some s)
        × ((s ≡ good)
            ↔ Allowed risk o.request.kind o.quantity_change o.side o.request.quantity
                o.previous_quantity)
  good_iff o hn ho h =
      let (s, run, passes) =
        gate_lem o.request.order_id o.request.price o.request.quantity o.previous_quantity
          o.request.kind o.quantity_change o.side in
      (
        s,
        run,
        subst (λ P. (s ≡ good) ↔ P)
            (Bounded-Allowed o.request.kind o.quantity_change o.side o.request.quantity
              o.previous_quantity hn ho h)
            passes,
      )
