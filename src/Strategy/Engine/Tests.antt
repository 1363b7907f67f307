-- ===== src/Strategy/Engine/Tests.antt =====
-- The engine takes a bid.
use hft_architecture.Base.{◌+◌, ◌≡◌, refl, ◌⊎◌, none, some, [], ◌∷◌, arith}
use hft_architecture.Order.{MarketEvent, EventType, buy, zero_price}
use hft_architecture.Book.HashMap
use hft_architecture.Book.OrderPool
use hft_architecture.Book.PriceSet.{insert}
use hft_architecture.Book.State.{execute, add, open_level, add_bid_or_offer, update_bbo_add, added}
use hft_architecture.Book.State.Events.Tests.{hashes, empty_book, one_bid}
use hft_architecture.SeqLock.{fresh, try_read, write}
use hft_architecture.Strategy.Engine.{OrderBookEngine, run, on_event}
use hft_architecture.Strategy.Engine.Shows.{run-shows}

abbrev engine : OrderBookEngine
engine = record { state = empty_book; public_bbo = fresh empty_book.bbo }

abbrev bid : MarketEvent
bid = record {
  order = record { order_id = 7; price = zero_price + 100; quantity = 75; side = buy };
  kind = EventType.add;
}

abbrev after_bid : OrderBookEngine
after_bid = record { state = one_bid; public_bbo = record { generation = 0; value = one_bid.bbo } }

run-after_bid : run hashes (bid ∷ []) engine ≡ some after_bid
unfolding run on_event execute add OrderPool.allocate HashMap.add HashMap.find open_level
    add_bid_or_offer update_bbo_add added insert write
run-after_bid = refl

run-shows_example :
    ((try_read after_bid.public_bbo ≡ none) × (after_bid.state.bbo ≡ empty_book.bbo))
    ⊎ (try_read after_bid.public_bbo ≡ some after_bid.state.bbo)
run-shows_example = run-shows hashes (bid ∷ []) engine after_bid refl (omega arith) run-after_bid
