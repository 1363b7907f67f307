-- ===== src/Exchange/Tests.antt =====
-- The exchange's cache, container and limit book at concrete inputs.
use hft_architecture.Base.{
  ℕ, suc, ◌+◌, ◌*◌, ◌≤◌, ◌≡◌, refl, Bool, true, false, Option, none, some, [], ◌∷◌, arith, ◌==◌,
}
use hft_architecture.Order.{Order, MarketEvent, EventType, buy, sell, zero_price}
use hft_architecture.Book.HashMap
use hft_architecture.Book.OrderPool
use hft_architecture.Book.PriceSet.{insert}
use hft_architecture.Book.State
use hft_architecture.Book.State.Events.Tests.{
  hashes, empty_book, one_bid, one_bid-Consistent, bid-Known,
}
use hft_architecture.Exchange.Cache.{CircularCache, fresh, fill, try_get_item}
use hft_architecture.Exchange.Cache.Laws.{lookup, try_get_item_lem, fill-Caches, fresh-Caches}
use hft_architecture.Book.State.{OrderSnapshot, no_offer}
use hft_architecture.Exchange.Generator.{
  generate_price, generate_price-bounds, min_price, max_price, large_price_variance,
  default_sell_price,
}
use hft_architecture.Exchange.RandomContainer.{
  RandomContainer, remove_random, tally, remove_random-removes,
}
use hft_architecture.Exchange.Clob.{
  Clob, OrderRequest, buy_request, cancel_request, cancel_order, submit, submit_all, limit_order,
  match_order, execute_trade, add_order,
}
use hft_architecture.Exchange.Clob.Cancelling.{Cancelled, cancel_order-cancels}

-- Seven items were put into a cache of four.
abbrev cache : CircularCache ℕ
cache = fill 4 (λ n. 10 * n) 0 7 (fresh (λ i. 0))

try_get_item_lem_example : try_get_item 4 5 cache ≡ lookup 4 (λ n. 10 * n) 7 5
try_get_item_lem_example =
    try_get_item_lem (omega arith) (λ n. 10 * n) 7 5 cache
      (fill-Caches (omega arith) (λ n. 10 * n) 7 0 (fresh (λ i. 0)) (omega arith)
        (fresh-Caches (omega arith) (λ n. 10 * n) (λ i. 0)))
      (omega arith) (omega arith) (omega arith)

abbrev three : RandomContainer ℕ
three = record { buffer = λ i. i + 5; size = 3 }

remove_random-removes_example :
    let (out, s') = remove_random 1 three in
    (out ≡ some 6)
    × (suc s'.size ≡ 3)
    × (tally (λ n. n == 6) s'.buffer s'.size + 1 ≡ tally (λ n. n == 6) three.buffer 3)
remove_random-removes_example = remove_random-removes (λ n. n == 6) 1 three (omega arith)

-- no stop is ever requested
abbrev running : ℕ → Bool
running n = false

abbrev exchange : Clob
exchange = record { next_order_id = 7; state = empty_book; published = []; asked = 0 }

abbrev request : OrderRequest
request = record { order_id = 0; price = zero_price + 100; quantity = 75; kind = buy_request }

abbrev bid_event : MarketEvent
bid_event = record {
  order = record { order_id = 7; price = zero_price + 100; quantity = 75; side = buy };
  kind = EventType.add;
}

abbrev after_bid : Clob
after_bid = record { next_order_id = 8; state = one_bid; published = bid_event ∷ []; asked = 3 }

bid_rests : submit_all hashes running 75 (request ∷ []) exchange ≡ some after_bid
unfolding submit_all submit limit_order match_order execute_trade add_order
    State.best_opposing_order State.add OrderPool.allocate HashMap.add HashMap.find State.open_level
    State.add_bid_or_offer State.update_bbo_add State.added insert
bid_rests = refl

abbrev incoming : Order
incoming = record { order_id = 0; price = zero_price + 90; quantity = 30; side = sell }

-- what is left of a sale of 30 to the bid for 75
abbrev sale : Option (Order × Clob)
sale = match_order hashes running 30 incoming after_bid

abbrev after_sale : Clob
after_sale = elim sale [ none ↦ after_bid | some (left, s) ↦ s ]

sale_done :
    match_order hashes running 30 incoming after_bid
    ≡ some (record incoming { quantity = 0 }, after_sale)
unfolding match_order execute_trade State.best_opposing_order State.head_order State.trade
    State.update_bbo_reduce State.reduced OrderPool.get HashMap.find HashMap.assign OrderPool.set
sale_done = refl

abbrev withdrawal : OrderRequest
withdrawal = record { order_id = 7; price = zero_price; quantity = 0; kind = cancel_request }

cancel_order-cancels_example :
    Cancelled hashes running withdrawal after_bid (cancel_order hashes running withdrawal after_bid)
cancel_order-cancels_example =
    cancel_order-cancels hashes running withdrawal after_bid one_bid-Consistent (λ e. bid-Known)

-- one bid at 350 and no offer; the distribution draws its lower bound
abbrev only_bid : OrderSnapshot
only_bid = record {
  best_bid = record { price = zero_price + 350; quantity = 10 };
  best_offer = record { price = no_offer; quantity = 0 };
}

generate_price-bounds_example :
    (p : ℕ) × (generate_price (λ low high. low) buy true only_bid ≡ some p)
    × (min_price ≤ p)
    × (p ≤ max_price)
    × ((default_sell_price ≤ p) × (p ≤ default_sell_price + large_price_variance))
generate_price-bounds_example =
    generate_price-bounds (λ low high. low) (λ low high le. (omega arith, le)) buy true only_bid
      (omega arith, omega arith) (omega arith, omega arith)
