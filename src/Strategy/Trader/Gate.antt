-- ===== src/Strategy/Trader/Gate.antt =====
-- What the trader lets through.
use hft_architecture.Base.{
  ℕ, zero, suc, ◌+◌, ◌≤◌, ◌≡◌, refl, sym, ap, ◌∙◌, ◌≢◌, Bool, true, false, Option, none, some, [],
  ◌∷◌, ◌++◌, append_assoc, append-nil, arith,
}
use hft_architecture.Ring.Window.{IsCapacity}
use hft_architecture.Ring.Lazy.{try_get_head_ref, publish, write_slot}
use hft_architecture.Ring.Lazy.Safety.{contents}
use hft_architecture.Ring.SingleThread.{try_front, pop, size}
use hft_architecture.Ring.SingleThread.Laws.{IsValid, pop-IsValid}
use hft_architecture.Strategy.{
  OutboundOrderRequest, OrderStatus, good, stopped, halted, too_many_orders, too_much_exposure,
  too_much_loss,
}
use hft_architecture.Strategy.Risk.{RiskData, evaluate_risk}
use hft_architecture.Strategy.Risk.Limits.{InRange, evaluate_risk-some}
use hft_architecture.Strategy.MarketMaker.{buffer_size}
use hft_architecture.Strategy.Trader.{
  Strategy, Trader, TraderError, Reading, status_of, forward, reject, place_one, on_front,
  place_new_orders, ◌>>=◌,
}
use hft_architecture.Strategy.MarketMaker.Queueing.{size-IsCapacity}
use hft_architecture.Strategy.Trader.Orders.{
  requests, IsTame, RingOk, finished, stops, fills_up, sends, rejects, Placed, PlacedAll, pop_lem,
  none_left, forward_lem,
}

module _ {M : Type 0} (strategy : Strategy M) (budget : M → ℕ) (tame : IsTame strategy budget)
    (risk : ℕ → Reading) (ranges : (n : ℕ) (r : RiskData) → (risk n).1 ≡ some r → InRange r)
    {cap : ℕ} (cp : IsCapacity cap) (update_cap : ℕ) where
  module _ (fuel : ℕ) (rest : Trader M → Option (Option TraderError × Trader M))
      (again : (t₁ : Trader M)
        → IsValid buffer_size t₁.order_buffer
        → RingOk cap t₁.trade_buffer
        → size buffer_size t₁.order_buffer + budget t₁.strategy ≤ fuel
        → PlacedAll strategy risk cap budget t₁ (rest t₁))
      (o : OutboundOrderRequest) (t : Trader M) (valid : IsValid buffer_size t.order_buffer)
      (ring : RingOk cap t.trade_buffer)
      (enough : size buffer_size t.order_buffer + budget t.strategy ≤ suc fuel)
      (front : try_front buffer_size t.order_buffer ≡ some o) where
    asking : Trader M
    asking = record t { asked = t.asked + 1 }

    reject_lem :
        (reason : OrderStatus)
        → evaluate_risk (risk t.asked).0 (risk t.asked).1 o ≡ some reason
        → reason ≢ good
        → reason ≢ stopped
        → PlacedAll strategy risk cap budget t
            (reject strategy risk cap update_cap rest o reason asking)
    unfolding asking
    reject_lem reason said bad going =
        let b = pop buffer_size t.order_buffer in
        let one = pop_lem o t.order_buffer valid front in
        let (m, b', q, v, less) =
          tame.answers o reason t.strategy b (pop-IsValid size-IsCapacity t.order_buffer valid) in
        let t₁ : Trader M = record asking { strategy = m; order_buffer = b' } in
        let (e, t', os, q', p) = again t₁ v ring (omega arith) in
        (
          e,
          t',
          os,
          rw (q, ◌>>=◌) q',
          record {
            valid = p.valid;
            ring = p.ring;
            less = omega (arith, p.less);
            out = p.out;
            run = rejects t t' e o os reason m b' front said bad going q p.run;
          },
        )

    forward_one_lem :
        evaluate_risk (risk t.asked).0 (risk t.asked).1 o ≡ some good
        → (slot : Option ℕ) → try_get_head_ref cap t.trade_buffer ≡ slot
        → PlacedAll strategy risk cap budget t
            (forward strategy risk cap update_cap rest o slot asking)
    unfolding asking
    forward_one_lem fine none q = (
      _,
      _,
      [],
      refl,
      record {
        valid = valid;
        ring = ring;
        less = omega arith;
        out = sym (append-nil (contents cap t.trade_buffer));
        run = fills_up t o front fine q;
      },
    )
    forward_one_lem fine (some i) q =
        let one = pop_lem o t.order_buffer valid front in
        let (ring', grown) = forward_lem cp o.request t.trade_buffer i ring q in
        let t₁ : Trader M = record asking {
          trade_buffer = publish (write_slot i o.request t.trade_buffer);
          order_buffer = pop buffer_size t.order_buffer;
        } in
        let (e, t', os, q', p) =
          again t₁ (pop-IsValid size-IsCapacity t.order_buffer valid) ring' (omega arith) in
        (
          e,
          t',
          o ∷ os,
          q',
          record {
            valid = p.valid;
            ring = p.ring;
            less = omega (arith, p.less);
            out =
                p.out
                ∙ ap (λ c. c ++ requests os) grown
                ∙ append_assoc (contents cap t.trade_buffer) (o.request ∷ []) (requests os);
            run = sends t t' e o os t₁.trade_buffer front fine grown p.run;
          },
        )

    place_one_lem :
        (status : OrderStatus)
        → evaluate_risk (risk t.asked).0 (risk t.asked).1 o ≡ some status
        → PlacedAll strategy risk cap budget t
            (place_one strategy risk cap update_cap rest o status asking)
    unfolding asking
    place_one_lem stopped q = (
      _,
      _,
      [],
      refl,
      record {
        valid = valid;
        ring = ring;
        less = omega arith;
        out = sym (append-nil (contents cap t.trade_buffer));
        run = stops t o front q;
      },
    )
    place_one_lem good q = forward_one_lem q (try_get_head_ref cap t.trade_buffer) refl
    place_one_lem halted q = reject_lem halted q (λ e. cc) (λ e. cc)
    place_one_lem too_many_orders q = reject_lem too_many_orders q (λ e. cc) (λ e. cc)
    place_one_lem too_much_exposure q = reject_lem too_much_exposure q (λ e. cc) (λ e. cc)
    place_one_lem too_much_loss q = reject_lem too_much_loss q (λ e. cc) (λ e. cc)

  none_waiting :
      (t : Trader M)
      → IsValid buffer_size t.order_buffer
      → RingOk cap t.trade_buffer
      → try_front buffer_size t.order_buffer ≡ none
      → Placed strategy risk cap budget t none t []
  none_waiting t valid ring q = record {
    valid = valid;
    ring = ring;
    less = omega arith;
    out = sym (append-nil (contents cap t.trade_buffer));
    run = finished t q;
  }

  status_some :
      (n : ℕ) (o : OutboundOrderRequest)
      → (status : OrderStatus) × (evaluate_risk (risk n).0 (risk n).1 o ≡ some status)
  unfolding evaluate_risk
  status_some n o = by_reading (risk n).0 (risk n).1 refl
    where
      by_reading :
          (stop : Bool) (snapshot : Option RiskData)
          → (risk n).1 ≡ snapshot
          → (status : OrderStatus) × (evaluate_risk stop snapshot o ≡ some status)
      by_reading true snapshot q = (stopped, refl)
      by_reading false none q = (stopped, refl)
      by_reading false (some r) q = evaluate_risk-some r (ranges n r q) o

  -- Placing the orders of a strategy that keeps to a budget ends, from buffers whose cursors are in
  -- range, with risk data whose numbers are in range, and for as much fuel as there are orders waiting
  -- and budget left. It is a run of the trader: each time the order at the front is checked, and goes
  -- out exactly if the check finds it good; one that is rejected goes back to the strategy with the
  -- reason, and not out. What goes to the trade buffer, behind what was there, are the requests of the
  -- orders that went out, in their order. It ends when no order is waiting, when a stop was requested
  -- at the last question, or with an error when a good order finds no room in the trade buffer; then
  -- that order stays at the front.
  pub place_new_orders-gates :
      (fuel : ℕ) (t : Trader M)
      → IsValid buffer_size t.order_buffer
      → RingOk cap t.trade_buffer
      → size buffer_size t.order_buffer + budget t.strategy ≤ fuel
      → PlacedAll strategy risk cap budget t (place_new_orders strategy risk cap update_cap fuel t)
  unfolding place_new_orders asking
  place_new_orders-gates zero t valid ring enough =
      let q = none_left t.order_buffer valid (omega arith) in
      rw (q, place_new_orders) (none, t, [], refl, none_waiting t valid ring q)
  place_new_orders-gates (suc fuel) t valid ring enough =
      on_front_lem (try_front buffer_size t.order_buffer) refl (λ o q.
        let (status, said) = status_some t.asked o in
        rw (said, ◌>>=◌)
          (place_one_lem fuel (λ t'. place_new_orders strategy risk cap update_cap fuel t')
            (place_new_orders-gates fuel) o t valid ring enough q status said))
    where
      on_front_lem :
          (m : Option OutboundOrderRequest)
          → try_front buffer_size t.order_buffer ≡ m
          → ((o : OutboundOrderRequest)
              → try_front buffer_size t.order_buffer ≡ some o
              → PlacedAll strategy risk cap budget t (
                  status_of strategy risk cap update_cap t.asked o >>= λ status.
                  place_one strategy risk cap update_cap
                    (λ t'. place_new_orders strategy risk cap update_cap fuel t')
                    o
                    status
                    (record t { asked = t.asked + 1 })))
          → PlacedAll strategy risk cap budget t (
              on_front strategy risk cap update_cap
                (λ t'. place_new_orders strategy risk cap update_cap fuel t')
                m
                t)
      on_front_lem none q one = (none, t, [], refl, none_waiting t valid ring q)
      on_front_lem (some o) q one = one o q
