-- ===== src/Book/State/Events/Reduce.antt =====
-- An order that leaves the book, and one that is traded in part.
use hft_architecture.Base.{
  ℕ, ◌+◌, ◌≤◌, ◌<◌, ◌≡◌, refl, ap, ◌∙◌, ◌↔◌, inl, inr, Bool, true, false, Option, none, some, arith,
  ◌==◌, ==_self, Bool-cases, u32_mod, sub64,
}
use hft_architecture.Order.{Order, is_buy, RestingOrder}
use hft_architecture.Book.HashMap
use hft_architecture.Book.HashMap.Probe as Probe
use hft_architecture.Book.HashMap.Update.{remove_lem, assign_lem}
use hft_architecture.Book.OrderPool
use hft_architecture.Book.OrderPool.{OrderPool}
use hft_architecture.Book.PriceSet.{contains, greater-IsBetter, less-IsBetter}
use hft_architecture.Book.State.{
  BookState, Hashes, level_cap, order_cap, level_of, PriceLevel, Update, unlink_previous,
  unlink_next, detach, close_level, leave_level, purge_order, remove_bid_or_offer,
  update_bbo_reduce, ◌>>=◌,
}
use hft_architecture.Book.State.Bbo.{Changes}
use hft_architecture.Book.State.TwoSided.{
  TwoSided-swap, TwoSided-close, TwoSided-leave, bid_view, offer_view,
}
use hft_architecture.Book.State.Events.{Consistent, own}

-- An order that rests on the book: its level stands on its own side and covers its quantity.
pub record Resting (h : Hashes) (s : BookState) (o : Order) : Type 0 where
  pub level : PriceLevel
  pub stands : level_of h s o.price ≡ some level
  pub within : o.quantity ≤ level.total_quantity
  pub inside : contains o.price (own o s) ≡ true

total-detach :
    (r : RestingOrder) (l : PriceLevel) (p : OrderPool)
    → (detach r l p).0.total_quantity ≡ l.total_quantity
unfolding detach unlink_previous unlink_next
total-detach r l p = ground arith

-- Two changes at one price are one.
Changes-twice :
    (old mid new : ℕ → Option PriceLevel) (p : ℕ) (l m : Option PriceLevel)
    → Changes old mid p l
    → Changes mid new p m
    → Changes old new p m
Changes-twice old mid new p l m f g q = ground (arith, f q, g q)

-- A reduction succeeds, and leaves a consistent book.
abbrev pub Reduces : (h : Hashes) → Option (Update × BookState) → Type 0
Reduces h result = (u : Update) × (s' : BookState) × (result ≡ some (u, s')) × Consistent h s'

module _ (h : Hashes) (s : BookState) (c : Consistent h s) (o : Order) (r : Resting h s o) where
  module _ (pool : OrderPool) (levels : HashMap.ClosedHashMap PriceLevel)
      (ids : HashMap.ClosedHashMap ℕ) (valid : Probe.IsValid h.hash_price level_cap levels)
      (ids_valid : Probe.IsValid h.hash_id order_cap ids) where
    abbrev pub found : ℕ → Option PriceLevel
    found q = HashMap.find h.hash_price level_cap q levels

    abbrev pub touched : BookState
    touched = record s { order_pool = pool; price_levels = levels; order_map = ids }

    closes_at :
        (buying : Bool)
        → is_buy o.side ≡ buying
        → Changes (level_of h s) found o.price none
        → r.level.total_quantity ≡ o.quantity
        → Reduces h (update_bbo_reduce h o (remove_bid_or_offer o touched))
    unfolding update_bbo_reduce remove_bid_or_offer
    closes_at true e ch all =
        let (best, changed, run, t) =
          TwoSided-close (level_of h s) found o.price none ch (bid_view s.bids s.bbo.best_bid)
            (offer_view s.offers s.bbo.best_offer) greater-IsBetter less-IsBetter c.sides o refl
            (ground (arith, r.inside)) refl (ground (arith, r.stands)) in
        rw (e, run, ◌>>=◌)
          (_, _, refl, record { levels_valid = valid; ids_valid = ids_valid; sides = t })
    closes_at false e ch all =
        let (best, changed, run, t) =
          TwoSided-close (level_of h s) found o.price none ch (offer_view s.offers s.bbo.best_offer)
            (bid_view s.bids s.bbo.best_bid) less-IsBetter greater-IsBetter
            (TwoSided-swap (level_of h s) _ _ c.sides) o refl (ground (arith, r.inside)) refl
            (ground (arith, r.stands)) in
        rw (e, run, ◌>>=◌)
          (
            _,
            _,
            refl,
            record {
              levels_valid = valid;
              ids_valid = ids_valid;
              sides = TwoSided-swap found _ _ t;
            },
          )

    pub leaves_at :
        (buying : Bool) (taken : Order) (level : PriceLevel)
        → is_buy o.side ≡ buying
        → taken.side ≡ o.side
        → taken.price ≡ o.price
        → Changes (level_of h s) found o.price (some level)
        → level.total_quantity + taken.quantity ≡ r.level.total_quantity
        → 0 < level.total_quantity
        → Reduces h (update_bbo_reduce h taken touched)
    unfolding update_bbo_reduce
    leaves_at true taken level e same at ch total more =
        let (best, changed, run, t) =
          TwoSided-leave (level_of h s) found o.price (some level) ch
            (bid_view s.bids s.bbo.best_bid) (offer_view s.offers s.bbo.best_offer) greater-IsBetter
            less-IsBetter c.sides taken at (ground (arith, r.inside)) (λ q. cc)
            (ground (arith, r.stands)) more in
        rw (ap is_buy same ∙ e, run, ◌>>=◌)
          (_, _, refl, record { levels_valid = valid; ids_valid = ids_valid; sides = t })
    leaves_at false taken level e same at ch total more =
        let (best, changed, run, t) =
          TwoSided-leave (level_of h s) found o.price (some level) ch
            (offer_view s.offers s.bbo.best_offer) (bid_view s.bids s.bbo.best_bid) less-IsBetter
            greater-IsBetter (TwoSided-swap (level_of h s) _ _ c.sides) taken at
            (ground (arith, r.inside)) (λ q. cc) (ground (arith, r.stands)) more in
        rw (ap is_buy same ∙ e, run, ◌>>=◌)
          (
            _,
            _,
            refl,
            record {
              levels_valid = valid;
              ids_valid = ids_valid;
              sides = TwoSided-swap found _ _ t;
            },
          )

-- What happens to the pool afterwards does not matter to the invariant.
pub Reduces-pool :
    (h : Hashes) (f : OrderPool → OrderPool) (result : Option (Update × BookState))
    → Reduces h result
    → Reduces h (result >>= λ r. some (r.0, record r.1 { order_pool = f r.1.order_pool }))
Reduces-pool h f result (u, s, e, c) =
    rw (e, ◌>>=◌)
      (
        u,
        record s { order_pool = f s.order_pool },
        refl,
        record { levels_valid = c.levels_valid; ids_valid = c.ids_valid; sides = c.sides },
      )

order_map-remove_bid_or_offer :
    (o : Order) (t : BookState) (g : HashMap.ClosedHashMap ℕ → HashMap.ClosedHashMap ℕ)
    → record (remove_bid_or_offer o t) { order_map = g (remove_bid_or_offer o t).order_map }
      ≡ remove_bid_or_offer o (record t { order_map = g t.order_map })
unfolding remove_bid_or_offer
order_map-remove_bid_or_offer o t g = elim (Bool-cases (is_buy o.side)) [
  | inl e ↦ rw e
  | inr e ↦ rw e
]

module _ (h : Hashes) (index : ℕ) (resting : RestingOrder) (s : BookState) (c : Consistent h s)
    (r : Resting h s resting.order) where
  abbrev o : Order
  o = resting.order

  abbrev total : ℕ
  total = sub64 r.level.total_quantity o.quantity

  pub level-small : r.level.total_quantity < u32_mod
  level-small = elim (Bool-cases (is_buy o.side)) [
    | inl e ↦ ground (arith, r.inside, r.stands, c.sides.this.fits o.price)
    | inr e ↦ ground (arith, r.inside, r.stands, c.sides.that.fits o.price)
  ]

  covers : (total == 0) ≡ true → r.level.total_quantity ≡ o.quantity
  covers all = ground (arith, level-small, r.within)

  abbrev level' : PriceLevel
  level' = record r.level { total_quantity = total }

  abbrev lookup : HashMap.ClosedHashMap PriceLevel → ℕ → Option PriceLevel
  lookup levels q = HashMap.find h.hash_price level_cap q levels

  abbrev reduced_levels : HashMap.ClosedHashMap PriceLevel
  reduced_levels = HashMap.assign h.hash_price level_cap o.price level' s.price_levels

  reduced_lem :
      Probe.IsValid h.hash_price level_cap reduced_levels
      × Changes (level_of h s) (lookup reduced_levels) o.price (some level')
  reduced_lem =
      assign_lem h.hash_price (omega arith) s.price_levels o.price level' c.levels_valid
        (rw r.stands (λ q. cc))

  abbrev closed : HashMap.ClosedHashMap PriceLevel
  closed = (HashMap.remove h.hash_price level_cap o.price reduced_levels).1

  closed_lem :
      Probe.IsValid h.hash_price level_cap closed
      × (((HashMap.remove h.hash_price level_cap o.price reduced_levels).0 ≡ false)
          ↔ (lookup reduced_levels o.price ≡ none))
      × Changes (lookup reduced_levels) (lookup closed) o.price none
  closed_lem = remove_lem h.hash_price (omega arith) reduced_levels o.price reduced_lem.0

  abbrev detached : PriceLevel × OrderPool
  detached = detach resting level' s.order_pool

  abbrev left : HashMap.ClosedHashMap PriceLevel
  left = HashMap.assign h.hash_price level_cap o.price detached.0 reduced_levels

  left_lem :
      Probe.IsValid h.hash_price level_cap left
      × Changes (lookup reduced_levels) (lookup left) o.price (some detached.0)
  left_lem =
      assign_lem h.hash_price (omega arith) reduced_levels o.price detached.0 reduced_lem.0
        (rw (reduced_lem.1 o.price, ==_self o.price) (λ q. cc))

  abbrev forget : HashMap.ClosedHashMap ℕ → HashMap.ClosedHashMap ℕ
  forget m = (HashMap.remove h.hash_id order_cap o.order_id m).1

  abbrev ids : HashMap.ClosedHashMap ℕ
  ids = forget s.order_map

  ids-IsValid : Probe.IsValid h.hash_id order_cap ids
  ids-IsValid = (remove_lem h.hash_id (omega arith) s.order_map o.order_id c.ids_valid).0

  -- A resting order that is taken off the book leaves it consistent. No failure is possible: every
  -- lookup that the source makes without a check succeeds.
  pub purge_order-Consistent : Reduces h (purge_order h index resting s)
  unfolding purge_order close_level leave_level
  purge_order-Consistent =
      rw (r.stands, ◌>>=◌)
        (elim (Bool-cases (total == 0)) [
          | inl all ↦ rw all (
              Reduces-pool h (OrderPool.free index) _ (
                rw (order_map-remove_bid_or_offer o (record s { price_levels = closed }) forget) (
                  closes_at h s c o r s.order_pool closed ids closed_lem.0 ids-IsValid
                    (is_buy o.side) refl
                    (Changes-twice (level_of h s) (lookup reduced_levels) (lookup closed) o.price
                      (some level') none reduced_lem.1 closed_lem.2)
                    (ground (arith, covers all)))))
          | inr part ↦ rw part (
              Reduces-pool h (OrderPool.free index) _ (
                leaves_at h s c o r detached.1 left ids left_lem.0 ids-IsValid (is_buy o.side) o
                  detached.0 refl refl refl
                  (Changes-twice (level_of h s) (lookup reduced_levels) (lookup left) o.price
                    (some level') (some detached.0) reduced_lem.1 left_lem.1)
                  (rw (total-detach resting level' s.order_pool)
                    (omega (arith, r.within, level-small)))
                  (rw (total-detach resting level' s.order_pool) (ground arith))))
        ])
