-- ===== src/Exchange/Clob/Matching.antt =====
-- The trades of one incoming order: what they add up to, and at which prices.
use hft_architecture.Order.{Order, MarketEvent, EventType, is_buy}
use hft_architecture.Exchange.Clob.{Clob, trade_event, out_of_reach}
use hft_architecture.Base.{
  ℕ, ◌+◌, ◌-◌, ◌≤◌, min, ◌≡◌, refl, sym, ap, ◌∙◌, false, List, [], ◌∷◌, ◌++◌, append_assoc,
  append-nil, arith, if◌then◌else◌,
}

-- the quantity of all events
unfoldable pub traded : List MarketEvent → ℕ
traded [] = 0
traded (event ∷ events) = event.order.quantity + traded events

traded-append : (xs ys : List MarketEvent) → traded (xs ++ ys) ≡ traded xs + traded ys
unfolding traded
traded-append [] ys = omega arith
traded-append (x ∷ xs) ys = omega (arith, traded-append xs ys)

-- Every event is a trade at a price that the order accepts.
pub AllWithin : Order → List MarketEvent → Type 0
AllWithin new [] = Unit
AllWithin new (event ∷ events) =
    (event.kind ≡ EventType.trade)
    × (if is_buy new.side then event.order.price ≤ new.price else new.price ≤ event.order.price)
    × AllWithin new events

-- What the trades of an order leave of it, and what they publish.
pub record Filled (new : Order) (s : Clob) (left : Order) (s' : Clob) : Type 0 where
  pub events : List MarketEvent
  pub sent : s'.published ≡ s.published ++ events
  pub conserved : traded events + left.quantity ≡ new.quantity
  pub within : AllWithin new events
  pub same_limit : (left.price ≡ new.price) × (left.side ≡ new.side)

within_one :
    (new best : Order)
    → out_of_reach new best ≡ false
    → if is_buy new.side then best.price ≤ new.price else new.price ≤ best.price
within_one new best e = ground arith

pub Filled-none : (new : Order) (s s' : Clob) → s'.published ≡ s.published → Filled new s new s'
unfolding traded AllWithin
Filled-none new s s' same = record {
  events = [];
  sent = same ∙ sym (append-nil s.published);
  conserved = omega arith;
  within = tt;
  same_limit = (refl, refl);
}

-- one trade, and those after it
pub Filled-cons :
    (new best : Order) (s t : Clob) (left : Order) (s' : Clob)
    → out_of_reach new best ≡ false
    → t.published ≡ s.published ++ (trade_event best (min new.quantity best.quantity) ∷ [])
    → Filled (record new { quantity = new.quantity - min new.quantity best.quantity }) t left s'
    → Filled new s left s'
unfolding traded AllWithin
Filled-cons new best s t left s' near sent f = record {
  events = trade_event best (min new.quantity best.quantity) ∷ f.events;
  sent = f.sent ∙ ap (λ l. l ++ f.events) sent ∙ append_assoc s.published _ f.events;
  conserved = omega (arith, f.conserved);
  within = (refl, within_one new best near, f.within);
  same_limit = f.same_limit;
}
