-- ===== src/Strategy/Engine.antt =====
-- OrderBookEngine of includes/strategy-oms/engine.hpp and src/strategy-oms/engine.cpp: the book of the
-- strategy, and the best prices that it shows to the other threads. An event that the book cannot
-- take gives `none`.
pub mod Best
pub mod Reports
pub mod Shows
mod Tests
use hft_architecture.Base.{Bool, true, false, Option, some, List, [], ◌∷◌, if◌then◌else◌}
use hft_architecture.Order.{MarketEvent}
use hft_architecture.Book.State.{
  BookState, OrderSnapshot, Update, no_change, new_best_bid, new_best_offer, Hashes, execute, ◌>>=◌,
}
use hft_architecture.SeqLock.{SeqLock, write}

pub record OrderBookEngine : Type 0 where
  pub state : BookState
  pub public_bbo : SeqLock OrderSnapshot

abbrev pub is_new_best : Update → Bool
is_new_best no_change = false
is_new_best new_best_bid = true
is_new_best new_best_offer = true

-- what is shown of the book after an update
abbrev pub show : Update → BookState → OrderBookEngine → OrderBookEngine
show u s e = record {
  state = s;
  public_bbo = if is_new_best u then write s.bbo e.public_bbo else e.public_bbo;
}

module _ (hashes : Hashes) where
  -- a round of the loop in `start`, with the event that it waited for
  unfoldable pub on_event : MarketEvent → OrderBookEngine → Option OrderBookEngine
  on_event event e = execute hashes event e.state >>= λ (u, s). some (show u s e)

  unfoldable pub run : List MarketEvent → OrderBookEngine → Option OrderBookEngine
  run [] e = some e
  run (event ∷ events) e = on_event event e >>= run events
