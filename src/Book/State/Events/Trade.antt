-- ===== src/Book/State/Events/Trade.antt =====
-- Orders found by their ids: cancelled, traded, and changed in quantity.
use hft_architecture.Base.{
  ℕ, ◌+◌, ◌-◌, ◌^◌, ◌≤◌, ◌<◌, ◌≡◌, refl, sym, ap, ◌∙◌, inl, inr, true, false, Option, some, List,
  [], ◌∷◌, arith, ◌==◌, ltb_of_lt, Bool-cases, put_self, u32_mod, sub64, add32, sub32,
}
use hft_architecture.Order.{Order, is_buy}
use hft_architecture.Book.HashMap
use hft_architecture.Book.HashMap.Probe as Probe
use hft_architecture.Book.State.Bbo.{Changes, total_of, best_of}
use hft_architecture.Book.HashMap.Update.{assign_lem}
use hft_architecture.Book.OrderPool
use hft_architecture.Book.OrderPool.{OrderPool}
use hft_architecture.Book.PriceSet.{greater, contains}
use hft_architecture.Book.State.{
  BookState, Hashes, level_cap, level_of, index_of, no_bid, BestOrderInfo, PriceLevel, Update,
  cancel, trade, update_quantity, update_bbo_add, added, ◌>>=◌,
}
use hft_architecture.Book.State.Events.{Consistent}
use hft_architecture.Book.State.Events.Reduce.{
  Resting, Reduces, Reduces-pool, leaves_at, level-small, purge_order-Consistent,
}

-- The order that the book's index has under an id rests on the book.
pub record Known (h : Hashes) (s : BookState) (id : ℕ) : Type 0 where
  pub index : ℕ
  pub indexed : index_of h s id ≡ some index
  pub rests : Resting h s (OrderPool.get index s.order_pool).order

abbrev pub known_order : (h : Hashes) (s : BookState) (id : ℕ) → Known h s id → Order
known_order h s id k = (OrderPool.get k.index s.order_pool).order

-- Cancelling an order that the book knows succeeds and leaves the book consistent.
pub cancel-Consistent :
    (h : Hashes) (id : ℕ) (s : BookState)
    → Consistent h s
    → Known h s id
    → Reduces h (cancel h id s)
unfolding cancel
cancel-Consistent h id s c k =
    rw (k.indexed, ◌>>=◌)
      (purge_order-Consistent h k.index (OrderPool.get k.index s.order_pool) s c k.rests)

-- Trading a part of an order that the book knows, or all of it, succeeds and leaves the book
-- consistent.
pub trade-Consistent :
    (h : Hashes) (id quantity : ℕ) (s : BookState)
    → Consistent h s
    → (k : Known h s id) → quantity ≤ (known_order h s id k).quantity
    → Reduces h (trade h id quantity s)
unfolding trade
trade-Consistent h id quantity s c k le =
    rw (k.indexed, ◌>>=◌)
      (elim (Bool-cases (o.quantity == quantity)) [
        | inl all ↦
            rw all
              (purge_order-Consistent h k.index (OrderPool.get k.index s.order_pool) s c k.rests)
        | inr part ↦
            rw (part, k.rests.stands, ◌>>=◌)
              (Reduces-pool h (OrderPool.set k.index _) _ (
                leaves_at h s c o k.rests s.order_pool levels s.order_map levels_lem.0 c.ids_valid
                  (is_buy o.side) (record o { quantity = quantity }) shorter refl refl refl
                  levels_lem.1 (omega (arith, fits, k.rests.within))
                  (ground (arith, fits, k.rests.within))))
      ])
  where
    o : Order
    o = known_order h s id k

    fits : k.rests.level.total_quantity < u32_mod
    fits = level-small h k.index (OrderPool.get k.index s.order_pool) s c k.rests

    shorter : PriceLevel
    shorter = record k.rests.level { total_quantity = sub64 k.rests.level.total_quantity quantity }

    levels : HashMap.ClosedHashMap PriceLevel
    levels = HashMap.assign h.hash_price level_cap o.price shorter s.price_levels

    levels_lem :
        Probe.IsValid h.hash_price level_cap levels
        × Changes
            (level_of h s)
            (λ q. HashMap.find h.hash_price level_cap q levels)
            o.price
            (some shorter)
    levels_lem =
        assign_lem h.hash_price (omega arith) s.price_levels o.price shorter c.levels_valid
          (rw k.rests.stands (λ q. cc))

-- The best quantity of a side whose best price is `p` is the total at `p`.
best_quantity :
    (lv : ℕ → Option PriceLevel) (prices : List ℕ) (absent p : ℕ) (best : BestOrderInfo)
    → contains p prices ≡ true
    → best ≡ best_of lv prices absent
    → best.price ≡ p
    → best.quantity ≡ total_of (lv p)
best_quantity lv [] absent p best h e at = cc
best_quantity lv (x ∷ prices) absent p best h e at =
    ap (λ b. b.quantity) e ∙ ap (λ t. total_of (lv t)) (sym (ap (λ b. b.price) e) ∙ at)

module _ (h : Hashes) (id quantity : ℕ) (s : BookState) (c : Consistent h s) (k : Known h s id)
    (buying : is_buy (known_order h s id k).side ≡ true)
    (at_best : (known_order h s id k).price ≡ s.bbo.best_bid.price) (kept : 0 < quantity)
    (less : quantity < (known_order h s id k).quantity) where
  abbrev shrunk : PriceLevel
  shrunk = record k.rests.level {
    total_quantity =
        sub64 k.rests.level.total_quantity (sub32 (known_order h s id k).quantity quantity);
  }

  abbrev shrunk_levels : HashMap.ClosedHashMap PriceLevel
  shrunk_levels =
      HashMap.assign h.hash_price level_cap (known_order h s id k).price shrunk s.price_levels

  -- A bid that the book knows at the best price, of a quantity below 2^31, is given a smaller
  -- quantity that is not zero, on a consistent book. The update succeeds, the order has the new
  -- quantity, and the total of its level is less by the difference; but the quantity of the best bid
  -- is the one before plus the difference, modulo 2^32, so the book is not consistent any more.
  pub update_quantity-not-Consistent :
      (known_order h s id k).quantity < 2 ^ 31
      → (u : Update) × (s' : BookState) × (update_quantity h id quantity s ≡ some (u, s'))
        × (s'.bbo.best_bid.quantity
            ≡ add32 s.bbo.best_bid.quantity (sub32 (known_order h s id k).quantity quantity))
        × ((OrderPool.get k.index s'.order_pool).order.quantity ≡ quantity)
        × (total_of (level_of h s' (known_order h s id k).price)
              + ((known_order h s id k).quantity - quantity)
            ≡ total_of (level_of h s (known_order h s id k).price))
        × (¬ Consistent h s')
  unfolding update_quantity update_bbo_add added OrderPool.get OrderPool.set
  update_quantity-not-Consistent halves =
      rw
        (k.indexed, ◌>>=◌, nonzero, k.rests.stands, ltb_of_lt _ _ less, buying, not_above, level_at)
        (
          _,
          _,
          refl,
          refl,
          ap (λ r. r.order.quantity) (put_self s.order_pool.orders k.index _),
          ground (arith, ch o.price, k.rests.stands, small, k.rests.within),
          broken,
        )
    where
      o : Order
      o = known_order h s id k

      nonzero : (quantity == 0) ≡ false
      nonzero = ground arith

      not_above : greater o.price s.bbo.best_bid.price ≡ false
      not_above = ground (arith, at_best)

      level_at : (o.price == s.bbo.best_bid.price) ≡ true
      level_at = ground (arith, at_best)

      inside : contains o.price s.bids ≡ true
      inside = ground (arith, k.rests.inside)

      before : s.bbo.best_bid.quantity ≡ k.rests.level.total_quantity
      before =
          best_quantity (level_of h s) s.bids no_bid o.price s.bbo.best_bid inside
            c.sides.this.first (sym at_best)
          ∙ ap total_of k.rests.stands

      small : k.rests.level.total_quantity < u32_mod
      small = level-small h k.index (OrderPool.get k.index s.order_pool) s c k.rests

      ch :
          Changes
            (level_of h s)
            (λ q. HashMap.find h.hash_price level_cap q shrunk_levels)
            o.price
            (some shrunk)
      ch =
          (assign_lem h.hash_price (omega arith) s.price_levels o.price shrunk c.levels_valid
            (rw k.rests.stands (λ q. cc))).1

      broken : ¬ Consistent h (record s {
        price_levels = shrunk_levels;
        order_pool =
            OrderPool.set k.index
              (record (OrderPool.get k.index s.order_pool) {
                order = record o { quantity = quantity };
              })
              s.order_pool;
        bbo = record s.bbo {
          best_bid = record s.bbo.best_bid {
            quantity = add32 s.bbo.best_bid.quantity (sub32 o.quantity quantity);
          };
        };
      })
      broken d =
          let after =
            best_quantity (λ q. HashMap.find h.hash_price level_cap q shrunk_levels) s.bids no_bid
              o.price
              (record s.bbo.best_bid {
                quantity = add32 s.bbo.best_bid.quantity (sub32 o.quantity quantity);
              })
              inside d.sides.this.first (sym at_best) in
          ground (arith, after, ch o.price, before, small, k.rests.within)
