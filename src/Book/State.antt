-- ===== src/Book/State.antt =====
-- BookState of includes/order-book/book-state.hpp and src/order-book/book-state.cpp. A function that
-- reads through an empty optional, which is undefined, or fails an assertion, gives `none`.
pub mod Bbo
pub mod SideOk
pub mod TwoSided
pub mod Events
use hft_architecture.Base.{
  ℕ, ◌-◌, ◌*◌, ◌%◌, ◌^◌, Bool, true, false, ◌&&◌, Option, none, some, List, [], ◌∷◌, ltb, ◌==◌,
  if◌then◌else◌, Array, u32_mod, add64, sub64, add32, sub32,
}
use hft_architecture.Order.{
  Side, buy, sell, Order, RestingOrder, MarketEvent, EventType, is_buy, null_index,
  invalid_order_id,
}
use hft_architecture.Book.HashMap
use hft_architecture.Book.HashMap.{ClosedHashMap}
use hft_architecture.Book.OrderPool
use hft_architecture.Book.OrderPool.{OrderPool}
use hft_architecture.Book.PriceSet.{greater, less, insert, erase}

abbrev pub max_price_levels : ℕ
max_price_levels = 2 ^ 13

abbrev pub max_concurrent_orders : ℕ
max_concurrent_orders = 2 ^ 15

-- capacities of the two maps
abbrev pub level_cap : ℕ
level_cap = max_price_levels * 2

abbrev pub order_cap : ℕ
order_cap = max_concurrent_orders * 2

-- numeric_limits<Price>::min() and max()
abbrev pub no_bid : ℕ
no_bid = 0

abbrev pub no_offer : ℕ
no_offer = 2 ^ 32 - 1

pub data Update : Type 0 where
  no_change new_best_bid new_best_offer : Update

pub record BestOrderInfo : Type 0 where
  pub price : ℕ
  pub quantity : ℕ

pub record OrderSnapshot : Type 0 where
  pub best_bid : BestOrderInfo
  pub best_offer : BestOrderInfo

pub record PriceLevel : Type 0 where
  pub head : ℕ
  pub tail : ℕ
  pub total_quantity : ℕ

pub record BookState : Type 0 where
  pub order_pool : OrderPool
  pub price_levels : ClosedHashMap PriceLevel
  pub order_map : ClosedHashMap ℕ
  pub bids : List ℕ
  pub offers : List ℕ
  pub bbo : OrderSnapshot

-- `std::hash` of prices and of ids
pub record Hashes : Type 0 where
  pub hash_price : ℕ → ℕ
  pub hash_id : ℕ → ℕ

infixl 5 ◌>>=◌
abbrev pub ◌>>=◌ : {A B : Type 0} → Option A → (A → Option B) → Option B
none >>= f = none
some a >>= f = f a

-- `update_best_bid_add` and `update_best_offer_add`: the comparison is `better`. The test is whether
-- the best price or its quantity changed.
unfoldable pub added : (ℕ → ℕ → Bool) → Order → BestOrderInfo → BestOrderInfo × Bool
added better o best =
    if better o.price best.price
    then (record { price = o.price; quantity = o.quantity }, true)
    else if o.price == best.price
    then (record best { quantity = add32 best.quantity o.quantity }, true)
    else (best, false)

unfoldable pub update_bbo_add : Order → OrderSnapshot → Update × OrderSnapshot
update_bbo_add o bbo =
    if is_buy o.side
    then (let (best, changed) = added greater o bbo.best_bid in
        (if changed then new_best_bid else no_change, record bbo { best_bid = best }))
    else (let (best, changed) = added less o bbo.best_offer in
        (if changed then new_best_offer else no_change, record bbo { best_offer = best }))

-- `price_levels.find(price)->get()`
abbrev pub LevelOf : Type 0
LevelOf = ℕ → Option PriceLevel

-- `update_best_bid_reduce` and `update_best_offer_reduce`, whose set of prices is `prices` and whose
-- price for an empty side is `absent`. A quantity is the low 32 bits of a level's total.
unfoldable pub reduced :
    LevelOf → List ℕ → ℕ → Order → BestOrderInfo → Option (BestOrderInfo × Bool)
reduced level_of prices absent o best =
    if o.price == best.price && o.quantity == best.quantity
    then elim prices [
      | [] ↦ some (record { price = absent; quantity = 0 }, true)
      | p ∷ _ ↦ elim (level_of p) [
        | none ↦ none
        | some level ↦ some (record { price = p; quantity = level.total_quantity % u32_mod }, true)
      ]
    ]
    else if o.price == best.price
    then some (record best { quantity = sub32 best.quantity o.quantity }, true)
    else some (best, false)

-- `detach`: the link of the order before, or the head of the level, and then those behind it
unfoldable pub unlink_previous : RestingOrder → PriceLevel → OrderPool → PriceLevel × OrderPool
unlink_previous order level pool =
    if order.previous == null_index then (record level { head = order.next }, pool) else (
      level,
      OrderPool.set order.previous
          (record (OrderPool.get order.previous pool) { next = order.next }) pool,
    )

unfoldable pub unlink_next : RestingOrder → PriceLevel → OrderPool → PriceLevel × OrderPool
unlink_next order level pool =
    if order.next == null_index then (record level { tail = order.previous }, pool) else (
      level,
      OrderPool.set order.next
          (record (OrderPool.get order.next pool) { previous = order.previous }) pool,
    )

unfoldable pub detach : RestingOrder → PriceLevel → OrderPool → PriceLevel × OrderPool
detach order level pool =
    let (level₁, pool₁) = unlink_previous order level pool in unlink_next order level₁ pool₁

unfoldable pub add_bid_or_offer : Order → BookState → BookState
add_bid_or_offer o s =
    if is_buy o.side
    then record s { bids = insert greater o.price s.bids }
    else record s { offers = insert less o.price s.offers }

unfoldable pub remove_bid_or_offer : Order → BookState → BookState
remove_bid_or_offer o s =
    if is_buy o.side
    then record s { bids = erase o.price s.bids }
    else record s { offers = erase o.price s.offers }

module _ (hashes : Hashes) where
  open hashes use {hash_price, hash_id}

  abbrev pub level_of : BookState → LevelOf
  level_of s price = HashMap.find hash_price level_cap price s.price_levels

  abbrev pub index_of : BookState → ℕ → Option ℕ
  index_of s id = HashMap.find hash_id order_cap id s.order_map

  unfoldable pub update_bbo_reduce : Order → BookState → Option (Update × BookState)
  update_bbo_reduce o s =
      if is_buy o.side
      then (reduced (level_of s) s.bids no_bid o s.bbo.best_bid >>= λ r. some (
        if r.1 then new_best_bid else no_change,
        record s { bbo = record s.bbo { best_bid = r.0 } },
      ))
      else (reduced (level_of s) s.offers no_offer o s.bbo.best_offer >>= λ r. some (
        if r.1 then new_best_offer else no_change,
        record s { bbo = record s.bbo { best_offer = r.0 } },
      ))

  unfoldable pub order_exists : ℕ → BookState → Bool
  order_exists id s = elim (index_of s id) [ none ↦ false | some _ ↦ true ]

  abbrev pub set_level : ℕ → PriceLevel → BookState → BookState
  set_level price level s = record s {
    price_levels = HashMap.assign hash_price level_cap price level s.price_levels;
  }

  -- the two branches of `add` that enter the order in its price level
  unfoldable pub open_level : Order → ℕ → BookState → Option BookState
  open_level o index s =
      HashMap.add hash_price level_cap o.price
        (record { head = index; tail = index; total_quantity = o.quantity }) s.price_levels
      >>= λ levels. some (add_bid_or_offer o (record s { price_levels = levels }))

  unfoldable pub join_level : Order → ℕ → PriceLevel → BookState → BookState
  join_level o index level s =
      let last = OrderPool.get level.tail s.order_pool in
      let pool = OrderPool.set level.tail (record last { next = index }) s.order_pool in
      let mine = OrderPool.get index pool in
      set_level o.price
        (record level { total_quantity = add64 level.total_quantity o.quantity; tail = index })
        (record s { order_pool = OrderPool.set index (record mine { previous = level.tail }) pool })

  unfoldable pub add : MarketEvent → BookState → Option (Update × BookState)
  add event s =
      let o = event.order in
      let resting : RestingOrder = record { order = o; previous = null_index; next = null_index } in
      OrderPool.allocate resting s.order_pool >>= λ (index, pool).
      HashMap.add hash_id order_cap o.order_id index s.order_map >>= λ ids.
      let entered : BookState = record s { order_pool = pool; order_map = ids } in
      elim (level_of entered o.price) [
        | none ↦ open_level o index entered
        | some level ↦ some (join_level o index level entered)
      ]
      >>= λ t. let (u, bbo) = update_bbo_add o t.bbo in some (u, record t { bbo = bbo })

  -- the two branches of `purge_order` on the level's new total
  unfoldable pub close_level : Order → BookState → BookState
  close_level o s =
      remove_bid_or_offer o
        (record s { price_levels = (HashMap.remove hash_price level_cap o.price s.price_levels).1 })

  unfoldable pub leave_level : RestingOrder → PriceLevel → BookState → BookState
  leave_level resting level s =
      let (level', pool) = detach resting level s.order_pool in
      set_level resting.order.price level' (record s { order_pool = pool })

  unfoldable pub purge_order : ℕ → RestingOrder → BookState → Option (Update × BookState)
  purge_order index resting s =
      let o = resting.order in
      level_of s o.price >>= λ level.
      let total = sub64 level.total_quantity o.quantity in
      let level' : PriceLevel = record level { total_quantity = total } in
      let s₁ = set_level o.price level' s in
      let s₂ = if total == 0 then close_level o s₁ else leave_level resting level' s₁ in
      let ids = (HashMap.remove hash_id order_cap o.order_id s₂.order_map).1 in
      update_bbo_reduce o (record s₂ { order_map = ids }) >>= λ r.
      some (r.0, record r.1 { order_pool = OrderPool.free index r.1.order_pool })

  unfoldable pub cancel : ℕ → BookState → Option (Update × BookState)
  cancel id s = index_of s id >>= λ index. purge_order index (OrderPool.get index s.order_pool) s

  -- The order's quantity is overwritten by the difference while the best prices are updated, which
  -- do not read the pool, and by the new quantity after that.
  unfoldable pub trade : ℕ → ℕ → BookState → Option (Update × BookState)
  trade id quantity s = index_of s id >>= λ index.
      let resting = OrderPool.get index s.order_pool in
      let o = resting.order in
      if o.quantity == quantity
      then purge_order index resting s
      else (level_of s o.price >>= λ level.
          let total = sub64 level.total_quantity quantity in
          let left : Order = record o { quantity = sub32 o.quantity quantity } in
          let s₁ = set_level o.price (record level { total_quantity = total }) s in
          update_bbo_reduce (record o { quantity = quantity }) s₁ >>= λ r. some (
            r.0,
            record r.1 {
              order_pool = OrderPool.set index (record resting { order = left }) r.1.order_pool;
            },
          ))

  -- The best prices are updated by `update_bbo_add` for a decrease and by `update_bbo_reduce` for an
  -- increase, as the source has it.
  unfoldable pub update_quantity : ℕ → ℕ → BookState → Option (Update × BookState)
  update_quantity id quantity s = index_of s id >>= λ index.
      let resting = OrderPool.get index s.order_pool in
      let o = resting.order in
      let done : RestingOrder = record resting { order = record o { quantity = quantity } } in
      if quantity == 0
      then purge_order index resting s
      else (level_of s o.price >>= λ level.
          if ltb quantity o.quantity
          then (let delta = sub32 o.quantity quantity in
              let total = sub64 level.total_quantity delta in
              let s₁ = set_level o.price (record level { total_quantity = total }) s in
              let (u, bbo) = update_bbo_add (record o { quantity = delta }) s₁.bbo in
              some
                (u, record s₁ { bbo = bbo; order_pool = OrderPool.set index done s₁.order_pool }))
          else (let delta = sub32 quantity o.quantity in
              let total = add64 level.total_quantity delta in
              let s₁ = set_level o.price (record level { total_quantity = total }) s in
              update_bbo_reduce (record o { quantity = delta }) s₁ >>= λ r.
              some (r.0, record r.1 { order_pool = OrderPool.set index done r.1.order_pool })))

  unfoldable pub execute : MarketEvent → BookState → Option (Update × BookState)
  execute event s = elim event.kind [
    | EventType.add ↦ add event s
    | EventType.cancel ↦ cancel event.order.order_id s
    | EventType.trade ↦ trade event.order.order_id event.order.quantity s
    | EventType.update ↦ update_quantity event.order.order_id event.order.quantity s
  ]

  -- the order at the head of a level, as `best_opposing_order` returns it
  unfoldable pub head_order : ℕ → Side → BookState → Option Order
  head_order price side s = level_of s price >>= λ level.
      let first = (OrderPool.get level.head s.order_pool).order in
      some (record {
        order_id = first.order_id;
        price = price;
        quantity = first.quantity;
        side = side;
      })

  unfoldable pub best_opposing_order : Side → BookState → Option Order
  best_opposing_order sell s =
      if s.bbo.best_bid.price == no_bid
      then some (record { order_id = invalid_order_id; price = no_bid; quantity = 0; side = buy })
      else head_order s.bbo.best_bid.price buy s
  best_opposing_order buy s =
      if s.bbo.best_offer.price == no_offer
      then some
          (record { order_id = invalid_order_id; price = no_offer; quantity = 0; side = sell })
      else head_order s.bbo.best_offer.price sell s

-- a book before any event; the arrays hold whatever they held
unfoldable pub new :
    Array RestingOrder
    → Array (HashMap.KeyValuePair PriceLevel)
    → Array (HashMap.KeyValuePair ℕ)
    → BookState
new orders levels ids = record {
  order_pool = OrderPool.new max_concurrent_orders orders;
  price_levels = HashMap.new levels;
  order_map = HashMap.new ids;
  bids = [];
  offers = [];
  bbo = record {
    best_bid = record { price = no_bid; quantity = 0 };
    best_offer = record { price = no_offer; quantity = 0 };
  };
}
