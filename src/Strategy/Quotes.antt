-- ===== src/Strategy/Quotes.antt =====
-- `price_new_order_pair` of src/strategy-oms/market-maker.cpp. A signed overflow gives `none`.
use hft_architecture.Base.{
  ℕ, ◌+◌, ◌-◌, ◌*◌, ◌/◌, ◌^◌, ◌≤◌, ◌<◌, min, max, ◌≡◌, inl, inr, true, false, ◌||◌, Option, none,
  some, arith, dec_lt, ltb, leb, ◌==◌, if◌then◌else◌, Bool-cases, u32_mod,
}
use hft_architecture.Order.{zero_price}
use hft_architecture.Book.State.{OrderSnapshot, no_bid, no_offer, ◌>>=◌}

abbrev pub min_tick_diff : ℕ
min_tick_diff = 1

abbrev pub one_sided_min_spread : ℕ
one_sided_min_spread = 3

abbrev pub one_sided_max_spread : ℕ
one_sided_max_spread = 10

pub record PricePair : Type 0 where
  pub bid_price : ℕ
  pub offer_price : ℕ

-- `(a + b) / 2`, rounded towards the price 0
unfoldable pub midpoint : ℕ → ℕ → Option ℕ
midpoint a b =
    if ltb (a + b) zero_price || leb (2 ^ 32 + 2 ^ 31) (a + b)
    then none
    else some (
        if leb (2 ^ 32) (a + b)
        then zero_price + (a + b - 2 ^ 32) / 2
        else zero_price - (2 ^ 32 - (a + b)) / 2)

unfoldable pub price_new_order_pair : OrderSnapshot → Option (Option PricePair)
price_new_order_pair bbo =
    let bid = bbo.best_bid.price in
    let offer = bbo.best_offer.price in
    if bid == no_bid || offer == no_offer || leb offer bid
    then some none
    else (let potential_offer = offer - min_tick_diff in
        let potential_bid = bid + min_tick_diff in
        if leb (potential_bid + 2 ^ 31) potential_offer
        then none
        else if ltb potential_offer (potential_bid + one_sided_min_spread * 2)
        then some none
        else (midpoint offer bid >>= λ mid.
            if ltb mid one_sided_max_spread || leb u32_mod (mid + one_sided_max_spread)
            then none
            else some (
                some (record {
                  bid_price = max (mid - one_sided_max_spread) potential_bid;
                  offer_price = min (mid + one_sided_max_spread) potential_offer;
                }))))

-- A pair improves both best prices, does not cross, and is no wider than the widest spread.
pub record Improves (bbo : OrderSnapshot) (p : PricePair) : Type 0 where
  pub above : bbo.best_bid.price < p.bid_price
  pub uncrossed : p.bid_price < p.offer_price
  pub below : p.offer_price < bbo.best_offer.price
  pub narrow : p.offer_price ≤ p.bid_price + one_sided_max_spread * 2

-- What the maker answers for a book: a pair that improves it, or nothing, and nothing only where the
-- spread is too narrow for one.
pub data Quoted (bbo : OrderSnapshot) : Option (Option PricePair) → Type 0 where
  quote : (p : PricePair) → Improves bbo p → Quoted bbo (some (some p))
  no_quote :
      bbo.best_offer.price < bbo.best_bid.price + min_tick_diff * 2 + one_sided_min_spread * 2
      → Quoted bbo (some none)

midpoint_lem :
    (offer bid : ℕ)
    → zero_price ≤ bid
    → bid < offer
    → offer < zero_price + 2 ^ 30
    → (mid : ℕ) × (midpoint offer bid ≡ some mid) × (bid ≤ mid) × (mid < offer)
unfolding midpoint
midpoint_lem offer bid lo lt hi =
    (zero_price + (offer + bid - 2 ^ 32) / 2, ground arith, omega arith, omega arith)

-- On a book whose best prices are positive and below 2^30, the maker's prices never overflow: it
-- quotes a pair above the best bid and below the best offer that does not cross, at most twice the
-- one-sided spread wide, and quotes nothing only where the best prices are less than 8 apart.
pub price_new_order_pair-quotes :
    (bbo : OrderSnapshot)
    → zero_price < bbo.best_bid.price
    → bbo.best_offer.price < zero_price + 2 ^ 30
    → Quoted bbo (price_new_order_pair bbo)
unfolding price_new_order_pair
price_new_order_pair-quotes bbo lo hi = elim (dec_lt bid offer) [
  | yes lt ↦
      let (mid, run, above, below) = midpoint_lem offer bid (omega arith) lt hi in
      rw (has_sides lt, no_overflow lt)
        (elim (Bool-cases (ltb (offer - 1) (bid + 1 + 3 * 2))) [
          | inl narrow ↦ rw narrow (no_quote (ground arith))
          | inr wide ↦
              rw (wide, run, ◌>>=◌, in_range mid above below)
                (quote _ (record {
                  above = omega arith;
                  uncrossed = ground arith;
                  below = omega arith;
                  narrow = omega arith;
                }))
        ])
  | no ge ↦ rw (crossed ge) (no_quote (omega arith))
]
  where
    bid : ℕ
    bid = bbo.best_bid.price

    offer : ℕ
    offer = bbo.best_offer.price

    has_sides : bid < offer → (bid == no_bid || offer == no_offer || leb offer bid) ≡ false
    has_sides lt = ground arith

    crossed : ¬ bid < offer → (bid == no_bid || offer == no_offer || leb offer bid) ≡ true
    crossed ge = ground arith

    no_overflow : bid < offer → leb (bid + 1 + 2 ^ 31) (offer - 1) ≡ false
    no_overflow lt = ground arith

    in_range : (mid : ℕ) → bid ≤ mid → mid < offer → (ltb mid 10 || leb u32_mod (mid + 10)) ≡ false
    in_range mid above below = ground arith
