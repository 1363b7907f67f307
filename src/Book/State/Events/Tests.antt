-- ===== src/Book/State/Events/Tests.antt =====
-- The book at concrete events.
use hft_architecture.Base.{
  ℕ, ◌+◌, ◌^◌, ◌≡◌, refl, sym, ◌∙◌, Option, none, some, [], ◌∷◌, arith, Array, put,
}
use mathlib.Core.Path.{subst, ap}
use hft_architecture.Order.{
  Order, buy, RestingOrder, MarketEvent, EventType, null_index, zero_price,
}
use hft_architecture.Book.HashMap
use hft_architecture.Book.HashMap.Laws.{new-IsValid, find-new}
use hft_architecture.Book.OrderPool
use hft_architecture.Book.PriceSet.{insert}
use hft_architecture.Book.State.{
  BookState, Hashes, level_of, PriceLevel, Update, new_best_bid, no_bid, no_offer, new, add, added,
  update_bbo_add, add_bid_or_offer, open_level, cancel, trade, update_quantity,
}
use hft_architecture.Book.State.Bbo.{total_of}
use hft_architecture.Book.State.Events.{Consistent}
use hft_architecture.Book.State.Events.Add.{Addable, add-Consistent, IsAdded}
use hft_architecture.Book.State.Events.Reduce.{Reduces}
use hft_architecture.Book.State.Events.Trade.{
  Known, cancel-Consistent, trade-Consistent, update_quantity-not-Consistent,
}

abbrev pub hashes : Hashes
hashes = record { hash_price = λ k. k; hash_id = λ k. k }

abbrev nothing : RestingOrder
nothing = record {
  order = record { order_id = 0; price = 0; quantity = 0; side = buy };
  previous = null_index;
  next = null_index;
}

abbrev no_level : PriceLevel
no_level = record { head = 0; tail = 0; total_quantity = 0 }

abbrev orders : Array RestingOrder
orders i = nothing

abbrev level_slots : Array (HashMap.KeyValuePair PriceLevel)
level_slots i = record { key = 0; value = no_level }

abbrev id_slots : Array (HashMap.KeyValuePair ℕ)
id_slots i = record { key = 0; value = 0 }

-- The state of `new`, written out.
abbrev pub empty_book : BookState
empty_book = record {
  order_pool = record { orders = orders; free_stack = λ i. i; top_index = 2 ^ 15 };
  price_levels = HashMap.new level_slots;
  order_map = HashMap.new id_slots;
  bids = [];
  offers = [];
  bbo = record {
    best_bid = record { price = no_bid; quantity = 0 };
    best_offer = record { price = no_offer; quantity = 0 };
  };
}

new-empty_book : new orders level_slots id_slots ≡ empty_book
unfolding new OrderPool.new
new-empty_book = refl

empty_book-Consistent : Consistent hashes empty_book
empty_book-Consistent = record {
  levels_valid = new-IsValid (λ k. k) (omega arith) level_slots;
  ids_valid = new-IsValid (λ k. k) (omega arith) id_slots;
  sides = record {
    apart = λ p h. refl;
    listed = λ p h. absurd (h (find-new (λ k. k) (omega arith) level_slots p));
    this = record {
      sorted = tt;
      stands = λ p h. cc;
      filled = λ p h. cc;
      fits = λ p h. cc;
      first = refl;
    };
    that = record {
      sorted = tt;
      stands = λ p h. cc;
      filled = λ p h. cc;
      fits = λ p h. cc;
      first = refl;
    };
  };
}

-- a bid for 75 at the price 100
abbrev bid : Order
bid = record { order_id = 7; price = zero_price + 100; quantity = 75; side = buy }

abbrev bid_event : MarketEvent
bid_event = record { order = bid; kind = EventType.add }

no_level_yet : level_of hashes empty_book (zero_price + 100) ≡ none
no_level_yet = find-new (λ k. k) (omega arith) level_slots (zero_price + 100)

new_pool-IsValid : OrderPool.IsValid 32768 empty_book.order_pool
unfolding OrderPool.new
new_pool-IsValid = (OrderPool.new-IsValid 32768 orders (omega arith)).0

bid-Addable : Addable hashes empty_book bid
bid-Addable = record {
  place = record {
    price_in = omega arith;
    positive = omega arith;
    fits = rw no_level_yet (omega arith);
    uncrossed = refl;
    level_room = (0, omega arith, λ q. cc);
  };
  fresh = find-new (λ k. k) (omega arith) id_slots 7;
  id_room = (0, omega arith, λ q. cc);
  pool_valid = new_pool-IsValid;
  pool_room = omega arith;
}

add-Consistent_example :
    (u : Update) × (s' : BookState) × (add hashes bid_event empty_book ≡ some (u, s'))
    × Consistent hashes s'
    × IsAdded hashes bid empty_book s'
add-Consistent_example =
    add-Consistent hashes bid_event empty_book empty_book-Consistent bid-Addable

abbrev bid_level : PriceLevel
bid_level = record { head = 32767; tail = 32767; total_quantity = 75 }

abbrev pub one_bid : BookState
one_bid = record {
  order_pool = record {
    orders = put orders 32767 (record { order = bid; previous = null_index; next = null_index });
    free_stack = λ i. i;
    top_index = 32767;
  };
  price_levels = record {
    slots = put level_slots 100 (record { key = zero_price + 100; value = bid_level });
    status = put (λ i. HashMap.empty) 100 HashMap.occupied;
  };
  order_map = record {
    slots = put id_slots 7 (record { key = 7; value = 32767 });
    status = put (λ i. HashMap.empty) 7 HashMap.occupied;
  };
  bids = (zero_price + 100) ∷ [];
  offers = [];
  bbo = record {
    best_bid = record { price = zero_price + 100; quantity = 75 };
    best_offer = record { price = no_offer; quantity = 0 };
  };
}

add-one_bid : add hashes bid_event empty_book ≡ some (new_best_bid, one_bid)
unfolding add OrderPool.allocate HashMap.add HashMap.find open_level add_bid_or_offer update_bbo_add
    added insert
add-one_bid = refl

book_of : Option (Update × BookState) → BookState
book_of none = empty_book
book_of (some (u, s)) = s

pub one_bid-Consistent : Consistent hashes one_bid
unfolding book_of
one_bid-Consistent =
    let (u, s', added_eq, ok, _) =
      add-Consistent hashes bid_event empty_book empty_book-Consistent bid-Addable in
    subst (λ s. Consistent hashes s) (ap book_of (sym added_eq ∙ add-one_bid)) ok

pub bid-Known : Known hashes one_bid 7
unfolding HashMap.find OrderPool.get
bid-Known = record {
  index = 32767;
  indexed = refl;
  rests = record { level = bid_level; stands = refl; within = omega arith; inside = refl };
}

cancel-Consistent_example : Reduces hashes (cancel hashes 7 one_bid)
cancel-Consistent_example = cancel-Consistent hashes 7 one_bid one_bid-Consistent bid-Known

trade-Consistent_example : Reduces hashes (trade hashes 7 30 one_bid)
unfolding OrderPool.get bid-Known
trade-Consistent_example =
    trade-Consistent hashes 7 30 one_bid one_bid-Consistent bid-Known (omega arith)

update_quantity-not-Consistent_example :
    (u : Update) × (s' : BookState) × (update_quantity hashes 7 50 one_bid ≡ some (u, s'))
    × (s'.bbo.best_bid.quantity ≡ 100)
    × ((OrderPool.get 32767 s'.order_pool).order.quantity ≡ 50)
    × (total_of (level_of hashes s' (zero_price + 100)) + 25
        ≡ total_of (level_of hashes one_bid (zero_price + 100)))
    × (¬ Consistent hashes s')
unfolding OrderPool.get bid-Known
update_quantity-not-Consistent_example =
    update_quantity-not-Consistent hashes 7 50 one_bid one_bid-Consistent bid-Known refl refl
      (omega arith) (omega arith) (omega arith)
