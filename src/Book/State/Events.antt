-- ===== src/Book/State/Events.antt =====
-- The invariant of BookState that its best bid and offer rest on, and what events do to it.
pub mod Enter
pub mod Add
pub mod Reduce
pub mod Trade
pub mod Tests
use hft_architecture.Base.{ℕ, List, if◌then◌else◌}
use hft_architecture.Order.{Order, is_buy}
use hft_architecture.Book.HashMap
use hft_architecture.Book.HashMap.Probe as Probe
use hft_architecture.Book.State.{BookState, Hashes, level_cap, order_cap, level_of}
use hft_architecture.Book.State.TwoSided.{TwoSided, bid_view, offer_view}

-- Both maps are valid; no price is both bid and offered; a level stands exactly at the prices of the
-- two sets; and each side is sorted, with a quantity at each price and the right best price.
pub record Consistent (h : Hashes) (s : BookState) : Type 0 where
  pub levels_valid : Probe.IsValid h.hash_price level_cap s.price_levels
  pub ids_valid : Probe.IsValid h.hash_id order_cap s.order_map
  pub sides :
      TwoSided
        (level_of h s)
        (bid_view s.bids s.bbo.best_bid)
        (offer_view s.offers s.bbo.best_offer)

-- the prices of the order's own side, and those of the other
abbrev pub own : Order → BookState → List ℕ
own o s = if is_buy o.side then s.bids else s.offers

abbrev pub other : Order → BookState → List ℕ
other o s = if is_buy o.side then s.offers else s.bids
