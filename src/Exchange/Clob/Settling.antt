-- ===== src/Exchange/Clob/Settling.antt =====
-- The loop over the trades of an incoming order, on a consistent book.
use hft_architecture.Base.{
  ℕ, suc, ◌-◌, ◌≤◌, ◌<◌, min, ◌≡◌, Bool, true, false, ◌&&◌, Option, none, some, [], ◌∷◌, ◌++◌, ltb,
  leb,
}
use hft_architecture.Order.{Order}
use hft_architecture.Book.OrderPool
use hft_architecture.Book.PriceSet.{contains}
use hft_architecture.Book.State
use hft_architecture.Book.State.{
  BookState, Hashes, PriceLevel, level_of, index_of, best_opposing_order,
}
use hft_architecture.Book.State.SideOk.{SideOk}
use hft_architecture.Book.State.Events.{Consistent, own}
use hft_architecture.Book.State.Events.Trade.{Known, known_order}
use hft_architecture.Exchange.Clob.{Clob, trade_event, out_of_reach}
use hft_architecture.Exchange.Clob.Matching.{Filled}
use hft_architecture.Exchange.Clob.Feed.{Follows}

-- The order that stands at the head of the best level is one that rests on the book: its id is in the
-- index, its level stands on its own side and covers its quantity, and it has a quantity.
abbrev pub sound_at : Hashes → Order → BookState → ℕ → Option PriceLevel → Bool
sound_at h best b index none = false
sound_at h best b index (some level) =
    let o = (OrderPool.get index b.order_pool).order in
    leb o.quantity level.total_quantity
    && contains o.price (own o b)
    && leb best.quantity o.quantity
    && ltb 0 best.quantity

abbrev pub is_sound : Hashes → Order → BookState → Bool
is_sound h best b = elim (index_of h b best.order_id) [
  | none ↦ false
  | some index ↦
      sound_at h best b index (level_of h b (OrderPool.get index b.order_pool).order.price)
]

abbrev Sound : Hashes → Order → BookState → Type 0
Sound h best b =
    (k : Known h b best.order_id) × (best.quantity ≤ (known_order h b best.order_id k).quantity)
    × (0 < best.quantity)

module _ (h : Hashes) (stopped : ℕ → Bool) where
  -- why the loop is done with an order
  pub data Done (left : Order) (s' : Clob) : Type 0 where
    filled : left.quantity ≡ 0 → Done left s'
    stop_requested : (n : ℕ) → suc n ≡ s'.asked → stopped n ≡ true → Done left s'
    none_in_reach :
        (best : Order)
        → best_opposing_order h left.side s'.state ≡ some best
        → out_of_reach left best ≡ true
        → Done left s'

  -- What the loop comes to. Either it returns, or the trades lead to a book where an order that should
  -- be traded is not one that rests on the book.
  pub data Settled (new : Order) (s : Clob) (result : Option (Order × Clob)) : Type 0 where
    returns :
        (left : Order) (s' : Clob)
        → result ≡ some (left, s')
        → Consistent h s'.state
        → Filled new s left s'
        → Follows h s s'
        → Done left s'
        → Settled new s result
    breaks :
        (left best : Order) (s' : Clob)
        → Consistent h s'.state
        → Filled new s left s'
        → Follows h s s'
        → best_opposing_order h left.side s'.state ≡ some best
        → out_of_reach left best ≡ false
        → is_sound h best s'.state ≡ false
        → Settled new s result

  data One (new : Order) (s : Clob) (result : Option (Bool × Order × Clob)) : Type 0 where
    trades :
        (best : Order) (t : Clob)
        → 0 < best.quantity
        → out_of_reach new best ≡ false
        → result
          ≡ some (true, record new { quantity = new.quantity - min new.quantity best.quantity }, t)
        → Consistent h t.state
        → t.published ≡ s.published ++ (trade_event best (min new.quantity best.quantity) ∷ [])
        → Follows h s t
        → One new s result
    ends :
        (t : Clob)
        → result ≡ some (false, new, t)
        → t.published ≡ s.published
        → t.state ≡ s.state
        → Done new t
        → One new s result
    unsound :
        (best : Order)
        → best_opposing_order h new.side s.state ≡ some best
        → out_of_reach new best ≡ false
        → is_sound h best s.state ≡ false
        → One new s result
