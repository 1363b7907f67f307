-- ===== src/Book/State/Events/Enter.antt =====
-- An order that enters a level: one of its own, or one that stands.
use hft_architecture.Base.{
  ℕ, ◌+◌, ◌<◌, ◌≡◌, refl, ◌≢◌, ◌⊎◌, inl, inr, Bool, true, false, Option, none, some, List, arith,
  ◌==◌, if◌then◌else◌, Option-cases, u32_mod, add64,
}
use hft_architecture.Order.{Order, is_buy}
use hft_architecture.Book.HashMap
use hft_architecture.Book.HashMap.Probe as Probe
use hft_architecture.Book.HashMap.Update.{add_lem, add-ne-none, assign_lem}
use hft_architecture.Book.OrderPool
use hft_architecture.Book.PriceSet.{greater, less, contains, greater-IsBetter, less-IsBetter}
use hft_architecture.Book.State.{
  BookState, Hashes, OrderSnapshot, level_cap, level_of, no_bid, no_offer, PriceLevel, Update,
  open_level, join_level, add_bid_or_offer, update_bbo_add, ◌>>=◌,
}
use hft_architecture.Book.State.Bbo.{total_of, Changes}
use hft_architecture.Book.State.TwoSided.{
  TwoSided-swap, TwoSided-open, TwoSided-join, bid_view, offer_view,
}
use hft_architecture.Book.State.Events.{Consistent, other}

-- A map has a slot that is not in use.
abbrev pub HasRoom : {V : Type 0} → ℕ → HashMap.ClosedHashMap V → Type 0
HasRoom cap m = (i : ℕ) × (i < cap) × (m.status i ≢ HashMap.occupied)

-- What an order needs to enter a level: numbers in range, a quantity, a price that is not on the
-- other side, and room.
pub record Placeable (h : Hashes) (s : BookState) (o : Order) : Type 0 where
  pub price_in : o.price < u32_mod
  pub positive : 0 < o.quantity
  pub fits : total_of (level_of h s o.price) + o.quantity < u32_mod
  pub uncrossed : contains o.price (other o s) ≡ false
  pub level_room : HasRoom level_cap s.price_levels

-- The order entered a level: the map of ids is as it was, the order that the pool has at the index
-- too, and the total at its price, and at no other, grew by its quantity.
pub record Entered (h : Hashes) (o : Order) (index : ℕ) (s s' : BookState) : Type 0 where
  pub same_ids : s'.order_map ≡ s.order_map
  pub same_order :
      (OrderPool.get index s'.order_pool).order ≡ (OrderPool.get index s.order_pool).order
  pub grown :
      (q : ℕ)
      → total_of (level_of h s' q) ≡ (
          if q == o.price
          then total_of (level_of h s o.price) + o.quantity
          else total_of (level_of h s q))

-- the last step of `add`
abbrev pub finish : Order → BookState → Update × BookState
finish o t = let (u, bbo) = update_bbo_add o t.bbo in (u, record t { bbo = bbo })

module _ (h : Hashes) (o : Order) (index : ℕ) (s : BookState) (c : Consistent h s)
    (a : Placeable h s o) where
  abbrev new_level : PriceLevel
  new_level = record { head = index; tail = index; total_quantity = o.quantity }

  -- the price of a bid is the empty side's or above it, that of an offer the empty side's or below it
  above : (o.price ≡ no_bid) ⊎ (greater o.price no_bid ≡ true)
  above = ground arith

  below : (o.price ≡ no_offer) ⊎ (less o.price no_offer ≡ true)
  below = ground (arith, a.price_in)

  module _ (levels : HashMap.ClosedHashMap PriceLevel)
      (valid : Probe.IsValid h.hash_price level_cap levels) where
    abbrev found : ℕ → Option PriceLevel
    found q = HashMap.find h.hash_price level_cap q levels

    opened :
        {bids offers : List ℕ} {best : OrderSnapshot}
        → level_of h s o.price ≡ none
        → Changes (level_of h s) found o.price (some new_level)
        → Entered h o index s
            (record s { price_levels = levels; bids = bids; offers = offers; bbo = best })
    opened empty ch = record {
      same_ids = refl;
      same_order = refl;
      grown = λ q. ground (arith, ch q, empty);
    }

    joined :
        {best : OrderSnapshot} (pool : OrderPool.OrderPool) (level longer : PriceLevel)
        → level_of h s o.price ≡ some level
        → longer.total_quantity ≡ add64 level.total_quantity o.quantity
        → Changes (level_of h s) found o.price (some longer)
        → (OrderPool.get index pool).order ≡ (OrderPool.get index s.order_pool).order
        → Entered h o index s (record s { order_pool = pool; price_levels = levels; bbo = best })
    joined pool level longer stood total ch same = record {
      same_ids = refl;
      same_order = same;
      grown = λ q. ground (arith, ch q, stood, total, a.fits);
    }

    opens_at :
        (buying : Bool)
        → is_buy o.side ≡ buying
        → level_of h s o.price ≡ none
        → Changes (level_of h s) found o.price (some new_level)
        → let s' = (finish o (add_bid_or_offer o (record s { price_levels = levels }))).1 in
          Consistent h s' × Entered h o index s s'
    unfolding add_bid_or_offer update_bbo_add
    opens_at true e empty ch = rw e (
      record {
        levels_valid = valid;
        ids_valid = c.ids_valid;
        sides =
            TwoSided-open (level_of h s) found o.price (some new_level) ch
              (bid_view s.bids s.bbo.best_bid) (offer_view s.offers s.bbo.best_offer)
              greater-IsBetter less-IsBetter c.sides o refl (ground (arith, a.uncrossed)) empty
              above (λ q. cc) refl a.positive (omega (arith, a.fits));
      },
      opened empty ch,
    )
    opens_at false e empty ch = rw e (
      record {
        levels_valid = valid;
        ids_valid = c.ids_valid;
        sides = TwoSided-swap found _ _ (
            TwoSided-open (level_of h s) found o.price (some new_level) ch
              (offer_view s.offers s.bbo.best_offer) (bid_view s.bids s.bbo.best_bid) less-IsBetter
              greater-IsBetter (TwoSided-swap (level_of h s) _ _ c.sides) o refl
              (ground (arith, a.uncrossed)) empty below (λ q. cc) refl a.positive
              (omega (arith, a.fits)));
      },
      opened empty ch,
    )

    joins_at :
        (pool : OrderPool.OrderPool) (level longer : PriceLevel) (buying : Bool)
        → is_buy o.side ≡ buying
        → level_of h s o.price ≡ some level
        → longer.total_quantity ≡ add64 level.total_quantity o.quantity
        → Changes (level_of h s) found o.price (some longer)
        → (OrderPool.get index pool).order ≡ (OrderPool.get index s.order_pool).order
        → let s' = (finish o (record s { order_pool = pool; price_levels = levels })).1 in
          Consistent h s' × Entered h o index s s'
    unfolding update_bbo_add
    joins_at pool level longer true e stood total ch same = rw e (
      record {
        levels_valid = valid;
        ids_valid = c.ids_valid;
        sides =
            TwoSided-join (level_of h s) found o.price (some longer) ch
              (bid_view s.bids s.bbo.best_bid) (offer_view s.offers s.bbo.best_offer)
              greater-IsBetter less-IsBetter c.sides o refl (ground (arith, a.uncrossed)) (λ q. cc)
              (λ q. cc) (ground (arith, a.fits)) (ground (arith, a.fits));
      },
      joined pool level longer stood total ch same,
    )
    joins_at pool level longer false e stood total ch same = rw e (
      record {
        levels_valid = valid;
        ids_valid = c.ids_valid;
        sides = TwoSided-swap found _ _ (
            TwoSided-join (level_of h s) found o.price (some longer) ch
              (offer_view s.offers s.bbo.best_offer) (bid_view s.bids s.bbo.best_bid) less-IsBetter
              greater-IsBetter (TwoSided-swap (level_of h s) _ _ c.sides) o refl
              (ground (arith, a.uncrossed)) (λ q. cc) (λ q. cc) (ground (arith, a.fits))
              (ground (arith, a.fits)));
      },
      joined pool level longer stood total ch same,
    )

  -- An order whose price has no level opens one, on its own side.
  pub opens :
      level_of h s o.price ≡ none
      → (t : BookState) × (open_level h o index s ≡ some t)
        × Consistent h (finish o t).1
        × Entered h o index s (finish o t).1
  unfolding open_level
  opens empty = elim (Option-cases added_levels) [
    | inl full ↦ absurd (
        add-ne-none h.hash_price (omega arith) s.price_levels o.price a.level_room.0 new_level
          a.level_room.1 a.level_room.2 full)
    | inr (levels, e) ↦
        let (valid, ch) =
          add_lem h.hash_price (omega arith) s.price_levels levels o.price new_level c.levels_valid
            empty e in
        let (ok, n) = opens_at levels valid (is_buy o.side) refl empty ch in
        (add_bid_or_offer o (record s { price_levels = levels }), rw (e, ◌>>=◌), ok, n)
  ]
    where
      added_levels : Option (HashMap.ClosedHashMap PriceLevel)
      added_levels = HashMap.add h.hash_price level_cap o.price new_level s.price_levels

  -- An order whose price has a level joins it.
  pub joins :
      (level : PriceLevel)
      → level_of h s o.price ≡ some level
      → let s' = (finish o (join_level h o index level s)).1 in
        Consistent h s' × Entered h o index s s'
  unfolding join_level update_bbo_add OrderPool.get OrderPool.set
  joins level found =
      let longer : PriceLevel = record level {
        total_quantity = add64 level.total_quantity o.quantity;
        tail = index;
      } in
      let pool = (join_level h o index level s).order_pool in
      let (valid, ch) =
        assign_lem h.hash_price (omega arith) s.price_levels o.price longer c.levels_valid
          (rw found (λ q. cc)) in
      joins_at _ valid pool level longer (is_buy o.side) refl found refl ch (ground arith)
