-- ===== src/Exchange/Clob.antt =====
-- CentralLimitOrderBook of includes/exchange/clob.hpp and src/exchange/clob.cpp.
-- A stop token is a function from the number of times it was asked to its answer. A wait for a slot
-- of the event buffer asks it once: the wait ends without a slot exactly when a stop is requested.
-- `published` is what the buffer was given, oldest first. A book that fails gives `none`.
pub mod Feed
pub mod Matching
pub mod Settling
pub mod Cancelling
use hft_architecture.Base.{
  ℕ, zero, suc, ◌-◌, min, Bool, true, false, not, ◌&&◌, ◌||◌, Option, none, some, List, [], ◌∷◌,
  ◌++◌, ltb, ◌==◌, if◌then◌else◌, add64,
}
use hft_architecture.Order.{
  Order, MarketEvent, Side, buy, sell, invalid_order_id, zero_price, is_buy, EventType,
}
use hft_architecture.Book.State
use hft_architecture.Book.State.{BookState, Hashes, ◌>>=◌}

pub data RequestType : Type 0 where
  buy_request sell_request cancel_request update_request : RequestType

pub record OrderRequest : Type 0 where
  pub order_id : ℕ
  pub price : ℕ
  pub quantity : ℕ
  pub kind : RequestType

-- `std::expected` of an id, with the one error that the book reports
pub data Submitted : Type 0 where
  id : ℕ → Submitted
  order_does_not_exist : Submitted

pub record Clob : Type 0 where
  pub next_order_id : ℕ
  pub state : BookState
  pub published : List MarketEvent
  pub asked : ℕ

-- `buffer_.publish()`, of a slot that holds the event
abbrev pub publish : MarketEvent → Clob → Clob
publish event s = record s { published = s.published ++ (event ∷ []) }

-- the order that the limit book takes on the other side: none, or one priced beyond the limit
abbrev pub out_of_reach : Order → Order → Bool
out_of_reach new best =
    best.order_id == invalid_order_id
    || (is_buy new.side && ltb new.price best.price)
    || (not (is_buy new.side) && ltb best.price new.price)

abbrev pub trade_event : Order → ℕ → MarketEvent
trade_event best quantity = record {
  order = record best { quantity = quantity };
  kind = EventType.trade;
}

abbrev pub cancel_event : ℕ → MarketEvent
cancel_event order_id = record {
  order = record { order_id = order_id; price = zero_price; quantity = 0; side = buy };
  kind = EventType.cancel;
}

abbrev pub update_event : ℕ → ℕ → MarketEvent
update_event order_id quantity = record {
  order = record { order_id = order_id; price = zero_price; quantity = quantity; side = buy };
  kind = EventType.update;
}

module _ (hashes : Hashes) (stopped : ℕ → Bool) where
  -- a question to the stop token
  abbrev pub ask : Clob → Bool × Clob
  ask s = (stopped s.asked, record s { asked = suc s.asked })

  -- The event is published, and then the book follows.
  abbrev pub apply :
      MarketEvent → (BookState → Option (State.Update × BookState)) → Clob → Option Clob
  apply event change s = change s.state >>= λ r. some (publish event (record s { state = r.1 }))

  -- whether a trade was made, what is left of the new order, and the book after it
  unfoldable pub execute_trade : Order → Clob → Option (Bool × Order × Clob)
  execute_trade new s =
      let (stop, s₁) = ask s in
      if stop
      then some (false, new, s₁)
      else (State.best_opposing_order hashes new.side s₁.state >>= λ best.
          if out_of_reach new best
          then some (false, new, s₁)
          else (let quantity = min new.quantity best.quantity in
              let (stop₂, s₂) = ask s₁ in
              if stop₂
              then some (false, new, s₂)
              else (apply (trade_event best quantity) (State.trade hashes best.order_id quantity) s₂
                  >>= λ s₃. some (true, record new { quantity = new.quantity - quantity }, s₃))))

  unfoldable pub add_order : Order → Clob → Option Clob
  add_order new s =
      let (stop, s₁) = ask s in
      if stop
      then some s₁
      else (let event : MarketEvent = record { order = new; kind = EventType.add } in
          apply event (State.add hashes event) s₁)

  -- `while(order.quantity != 0 && execute_trade(order, stop_token));`, on fuel:
  -- `none` also where that runs out
  unfoldable pub match_order : ℕ → Order → Clob → Option (Order × Clob)
  match_order zero new s = if new.quantity == 0 then some (new, s) else none
  match_order (suc fuel) new s =
      if new.quantity == 0
      then some (new, s)
      else (execute_trade new s >>= λ (traded, left, s'). elim traded [
        | true ↦ match_order fuel left s'
        | false ↦ some (left, s')
      ])

  -- `buy_order` and `sell_order`, which differ in the side
  unfoldable pub limit_order : ℕ → Side → OrderRequest → Clob → Option (Submitted × Clob)
  limit_order fuel side request s =
      if request.quantity == 0
      then some (id invalid_order_id, s)
      else (let new : Order = record {
        order_id = 0;
        price = request.price;
        quantity = request.quantity;
        side = side;
      } in
          match_order fuel new s >>= λ (left, s₁).
          if left.quantity == 0
          then some (id invalid_order_id, s₁)
          else (let (stop, s₂) = ask s₁ in
              if stop
              then some (id invalid_order_id, s₂)
              else (add_order (record left { order_id = s₂.next_order_id })
                    (record s₂ { next_order_id = add64 s₂.next_order_id 1 })
                  >>= λ s₃. some (id s₂.next_order_id, s₃))))

  unfoldable pub cancel_order : OrderRequest → Clob → Option (Bool × Clob)
  cancel_order request s =
      if State.order_exists hashes request.order_id s.state
      then (let (stop, s₁) = ask s in
          if stop
          then some (true, s₁)
          else (apply (cancel_event request.order_id) (State.cancel hashes request.order_id) s₁
              >>= λ s₂. some (true, s₂)))
      else some (false, s)

  unfoldable pub update_order : OrderRequest → Clob → Option (Bool × Clob)
  update_order request s =
      if State.order_exists hashes request.order_id s.state
      then (let (stop, s₁) = ask s in
          if stop
          then some (true, s₁)
          else (apply (update_event request.order_id request.quantity)
                (State.update_quantity hashes request.order_id request.quantity) s₁
              >>= λ s₂. some (true, s₂)))
      else some (false, s)

  unfoldable pub submit : ℕ → OrderRequest → Clob → Option (Submitted × Clob)
  submit fuel request s = elim request.kind [
    | buy_request ↦ limit_order fuel buy request s
    | sell_request ↦ limit_order fuel sell request s
    | cancel_request ↦ cancel_order request s >>= λ (done, s').
        some (if done then id invalid_order_id else order_does_not_exist, s')
    | update_request ↦ update_order request s >>= λ (done, s').
        some (if done then id request.order_id else order_does_not_exist, s')
  ]

  -- the requests in turn
  unfoldable pub submit_all : ℕ → List OrderRequest → Clob → Option Clob
  submit_all fuel [] s = some s
  submit_all fuel (request ∷ requests) s =
      submit fuel request s >>= λ r. submit_all fuel requests r.1
