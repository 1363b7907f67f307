-- ===== src/Strategy/Trader/Orders.antt =====
-- The orders that the trader places, and the buffers that they pass.
use hft_architecture.Base.{
  ℕ, suc, ◌+◌, ◌%◌, ◌≤◌, ◌<◌, ◌≡◌, refl, sym, subst, ◌∙◌, ◌≢◌, inl, inr, Bool, true, false, Option,
  none, some, List, [], ◌∷◌, ◌++◌, arith, ◌==◌, if◌then◌else◌, ne_of_==, Bool-cases, u64_mod, sub64,
}
use mathlib.Core.Option.{some-injective, some-ne-none}
use hft_architecture.Exchange.Clob.{OrderRequest}
use hft_architecture.Ring.Window.{IsCapacity, window-push}
use hft_architecture.Ring.Lazy.{LazyRingBuffer, try_get_head_ref, publish, write_slot}
use hft_architecture.Ring.Lazy.Safety.{contents}
use hft_architecture.Ring.SingleThread.{try_front, pop, size}
use hft_architecture.Ring.SingleThread.Laws.{IsValid}
use hft_architecture.Strategy.{OutboundOrderRequest, OrderStatus, good, stopped}
use hft_architecture.Strategy.Risk.{evaluate_risk}
use hft_architecture.Strategy.MarketMaker.{StrategyOrderBuffer, buffer_size}
use hft_architecture.Strategy.Trader.{Strategy, Trader, TraderError, trade_buffer_full, Reading}

abbrev pub requests : List OutboundOrderRequest → List OrderRequest
requests [] = []
requests (o ∷ os) = o.request ∷ requests os

-- A strategy whose answer to a rejected order keeps the buffer valid, and puts no more orders into it
-- than it has left of its budget.
pub record IsTame {M : Type 0} (strategy : Strategy M) (budget : M → ℕ) : Type 0 where
  pub answers :
      (o : OutboundOrderRequest) (reason : OrderStatus) (m : M) (b : StrategyOrderBuffer)
      → IsValid buffer_size b
      → (m' : M) × (b' : StrategyOrderBuffer) × (strategy.notify_invalid o reason m b
          ≡ some (m', b'))
        × IsValid buffer_size b'
        × (size buffer_size b' + budget m' ≤ size buffer_size b + budget m)

-- The cursors of the trade buffer are in range.
pub record RingOk {A : Type 0} (cap : ℕ) (r : LazyRingBuffer A) : Type 0 where
  pub head_in : r.head < u64_mod
  pub tail_in : r.tail < u64_mod
  pub size_in : sub64 r.head r.tail ≤ cap

-- A run of the trader over the orders that wait, from one state to the next, with the orders that it
-- lets out. At each question it is the order at the front that is checked. One that the check finds
-- good leaves the order buffer and goes behind what is in the trade buffer; one that the check rejects
-- leaves the order buffer, the strategy is told about it and the reason, and nothing goes out. The run
-- ends when no order waits, when the check is stopped, or when a good order finds no room; then the
-- order at the front stays where it is.
pub data Runs {M : Type 0} (strategy : Strategy M) (risk : ℕ → Reading) (cap : ℕ)
    : Trader M → Option TraderError → Trader M → List OutboundOrderRequest → Type 0 where
  finished :
      (t : Trader M)
      → try_front buffer_size t.order_buffer ≡ none
      → Runs strategy risk cap t none t []
  stops :
      (t : Trader M) (o : OutboundOrderRequest)
      → try_front buffer_size t.order_buffer ≡ some o
      → evaluate_risk (risk t.asked).0 (risk t.asked).1 o ≡ some stopped
      → Runs strategy risk cap t none (record t { asked = t.asked + 1 }) []
  fills_up :
      (t : Trader M) (o : OutboundOrderRequest)
      → try_front buffer_size t.order_buffer ≡ some o
      → evaluate_risk (risk t.asked).0 (risk t.asked).1 o ≡ some good
      → try_get_head_ref cap t.trade_buffer ≡ none
      → Runs strategy risk cap t (some trade_buffer_full) (record t { asked = t.asked + 1 }) []
  sends :
      (t t' : Trader M) (e : Option TraderError) (o : OutboundOrderRequest)
      (os : List OutboundOrderRequest) (sent : LazyRingBuffer OrderRequest)
      → try_front buffer_size t.order_buffer ≡ some o
      → evaluate_risk (risk t.asked).0 (risk t.asked).1 o ≡ some good
      → contents cap sent ≡ contents cap t.trade_buffer ++ (o.request ∷ [])
      → Runs strategy risk cap
          (record t {
            order_buffer = pop buffer_size t.order_buffer;
            trade_buffer = sent;
            asked = t.asked + 1;
          })
          e
          t'
          os
      → Runs strategy risk cap t e t' (o ∷ os)
  rejects :
      (t t' : Trader M) (e : Option TraderError) (o : OutboundOrderRequest)
      (os : List OutboundOrderRequest) (reason : OrderStatus) (m : M) (b : StrategyOrderBuffer)
      → try_front buffer_size t.order_buffer ≡ some o
      → evaluate_risk (risk t.asked).0 (risk t.asked).1 o ≡ some reason
      → reason ≢ good
      → reason ≢ stopped
      → strategy.notify_invalid o reason t.strategy (pop buffer_size t.order_buffer) ≡ some (m, b)
      → Runs strategy risk cap
          (record t { strategy = m; order_buffer = b; asked = t.asked + 1 })
          e
          t'
          os
      → Runs strategy risk cap t e t' os

-- A run, and what it leaves: buffers whose cursors are in range, no more waiting and budget than there
-- was, and in the trade buffer what was there and behind it the orders of the run.
pub record Placed {M : Type 0} (strategy : Strategy M) (risk : ℕ → Reading) (cap : ℕ)
    (budget : M → ℕ) (t : Trader M) (e : Option TraderError) (t' : Trader M)
    (os : List OutboundOrderRequest) : Type 0 where
  pub valid : IsValid buffer_size t'.order_buffer
  pub ring : RingOk cap t'.trade_buffer
  pub less :
      size buffer_size t'.order_buffer + budget t'.strategy
      ≤ size buffer_size t.order_buffer + budget t.strategy
  pub out : contents cap t'.trade_buffer ≡ contents cap t.trade_buffer ++ requests os
  pub run : Runs strategy risk cap t e t' os

-- what placing the orders comes to
abbrev pub PlacedAll :
    {M : Type 0}
    → Strategy M
    → (ℕ → Reading)
    → ℕ
    → (M → ℕ)
    → Trader M
    → Option (Option TraderError × Trader M)
    → Type 0
PlacedAll strategy risk cap budget t res =
    (e : Option TraderError) × (t' : Trader _) × (os : List OutboundOrderRequest) × (res
      ≡ some (e, t'))
    × Placed strategy risk cap budget t e t' os

pub pop_lem :
    (o : OutboundOrderRequest) (b : StrategyOrderBuffer)
    → IsValid buffer_size b
    → try_front buffer_size b ≡ some o
    → suc (size buffer_size (pop buffer_size b)) ≡ size buffer_size b
unfolding try_front pop
pop_lem o b v q = elim (Bool-cases (b.head == b.tail)) [
  | inl e ↦ absurd (some-ne-none o (sym q ∙ emptied e))
  | inr e ↦ rw e (omega (arith, v.head_in, v.tail_in, ne_of_== b.head b.tail e))
]
  where
    emptied :
        (b.head == b.tail) ≡ true
        → (if b.head == b.tail then none else some (b.buffer (b.tail % buffer_size))) ≡ none
    emptied e = rw e refl

pub none_left :
    (b : StrategyOrderBuffer)
    → IsValid buffer_size b
    → size buffer_size b ≡ 0
    → try_front buffer_size b ≡ none
unfolding try_front
none_left b v e =
    let same : (b.head == b.tail) ≡ true = ground (arith, v.head_in, v.tail_in) in rw same refl

picked :
    {A : Type 0} (b : Bool) (x y : A)
    → (if b then none else some x) ≡ some y
    → (b ≡ false) × (x ≡ y)
picked true x y q = absurd (some-ne-none y (sym q))
picked false x y q = (refl, some-injective x y q)

pub forward_lem :
    {A : Type 0} {cap : ℕ} (cp : IsCapacity cap) (x : A) (r : LazyRingBuffer A) (i : ℕ)
    → RingOk cap r
    → try_get_head_ref cap r ≡ some i
    → RingOk cap (publish (write_slot i x r))
      × (contents cap (publish (write_slot i x r)) ≡ contents cap r ++ (x ∷ []))
unfolding try_get_head_ref publish
forward_lem {cap = cap} cp x r i v q =
    let (not_full, at_head) = picked (sub64 r.head r.tail == cap) (r.head % cap) i q in
    let room : sub64 r.head r.tail < cap =
      omega (arith, v.size_in, ne_of_== (sub64 r.head r.tail) cap not_full) in
    (
      record {
        head_in = omega arith;
        tail_in = v.tail_in;
        size_in = omega (arith, v.head_in, v.tail_in, cp.small);
      },
      subst (λ j. contents cap (publish (write_slot j x r)) ≡ contents cap r ++ (x ∷ [])) at_head
          (window-push cp r.buffer r.head r.tail x v.head_in v.tail_in room),
    )
