-- ===== src/Strategy/Engine/Best.antt =====
-- The best prices of the book, and whether a change of them is reported.
use hft_architecture.Base.{
  ℕ, ◌%◌, ◌≡◌, refl, ap, ◌∙◌, inl, inr, Bool, true, false, ◌&&◌, Option, none, some, List, [], ◌∷◌,
  ◌==◌, if◌then◌else◌, Bool-cases, u32_mod,
}
use hft_architecture.Order.{Order, is_buy}
use hft_architecture.Book.State.{
  BookState, OrderSnapshot, BestOrderInfo, Update, no_change, new_best_bid, new_best_offer, ◌>>=◌,
  added, update_bbo_add, reduced, LevelOf, add_bid_or_offer, remove_bid_or_offer, PriceLevel,
}
use hft_architecture.Book.PriceSet.{greater, less}

-- A result that reports no change has the same best prices.
unfoldable pub Reports : OrderSnapshot → Option (Update × BookState) → Type 0
Reports bbo none = Unit
Reports bbo (some (no_change, s)) = s.bbo ≡ bbo
Reports bbo (some (new_best_bid, s)) = Unit
Reports bbo (some (new_best_offer, s)) = Unit

pub Reports-bind :
    {A : Type 0} (bbo : OrderSnapshot) (m : Option A) (f : A → Option (Update × BookState))
    → ((a : A) → Reports bbo (f a))
    → Reports bbo (m >>= f)
unfolding Reports
Reports-bind bbo none f h = tt
Reports-bind bbo (some a) f h = h a

-- The order is entered, and the best prices are still those from before.
unfoldable pub Entered : OrderSnapshot → Option BookState → Type 0
Entered bbo none = Unit
Entered bbo (some s) = s.bbo ≡ bbo

-- what is done after the report leaves the best prices
pub Reports-after :
    (bbo : OrderSnapshot) (m : Option (Update × BookState)) (f : BookState → BookState)
    → ((s : BookState) → (f s).bbo ≡ s.bbo)
    → Reports bbo m
    → Reports bbo (m >>= λ r. some (r.0, f r.1))
unfolding Reports
Reports-after bbo none f keeps h = tt
Reports-after bbo (some (no_change, s)) f keeps h = keeps s ∙ h
Reports-after bbo (some (new_best_bid, s)) f keeps h = tt
Reports-after bbo (some (new_best_offer, s)) f keeps h = tt

-- A side whose best price did not change is as it was.
pub Kept : BestOrderInfo → Option (BestOrderInfo × Bool) → Type 0
Kept best none = Unit
Kept best (some (b, true)) = Unit
Kept best (some (b, false)) = b ≡ best

added-Kept :
    (better : ℕ → ℕ → Bool) (o : Order) (best : BestOrderInfo)
    → Kept best (some (added better o best))
unfolding added Kept
added-Kept better o best = elim (Bool-cases (better o.price best.price)) [
  | inl e ↦ rw e tt
  | inr e ↦ rw e (elim (Bool-cases (o.price == best.price)) [ inl f ↦ rw f tt | inr f ↦ rw f refl ])
]

pub reduced-Kept :
    (find : LevelOf) (prices : List ℕ) (absent : ℕ) (o : Order) (best : BestOrderInfo)
    → Kept best (reduced find prices absent o best)
unfolding reduced Kept
reduced-Kept find prices absent o best =
    elim (Bool-cases (o.price == best.price && o.quantity == best.quantity)) [
      | inl e ↦ rw e (emptied prices)
      | inr e ↦
          rw e (elim (Bool-cases (o.price == best.price)) [ inl f ↦ rw f tt | inr f ↦ rw f refl ])
    ]
  where
    at_level :
        (p : ℕ) (m : Option PriceLevel)
        → Kept best (elim m [
          | none ↦ none
          | some level ↦
              some (record { price = p; quantity = level.total_quantity % u32_mod }, true)
        ])
    at_level p none = tt
    at_level p (some level) = tt

    emptied :
        (ps : List ℕ)
        → Kept best (elim ps [
          | [] ↦ some (record { price = absent; quantity = 0 }, true)
          | p ∷ _ ↦ elim (find p) [
            | none ↦ none
            | some level ↦
                some (record { price = p; quantity = level.total_quantity % u32_mod }, true)
          ]
        ])
    emptied [] = tt
    emptied (p ∷ ps) = at_level p (find p)

pub bid_Reports :
    (s : BookState) (m : Option (BestOrderInfo × Bool))
    → Kept s.bbo.best_bid m
    → Reports s.bbo (
        m >>= λ r. some (
          if r.1 then new_best_bid else no_change,
          record s { bbo = record s.bbo { best_bid = r.0 } },
        ))
unfolding Kept Reports
bid_Reports s none k = tt
bid_Reports s (some (b, true)) k = tt
bid_Reports s (some (b, false)) k = ap (λ x. record s.bbo { best_bid = x }) k

pub offer_Reports :
    (s : BookState) (m : Option (BestOrderInfo × Bool))
    → Kept s.bbo.best_offer m
    → Reports s.bbo (
        m >>= λ r. some (
          if r.1 then new_best_offer else no_change,
          record s { bbo = record s.bbo { best_offer = r.0 } },
        ))
unfolding Kept Reports
offer_Reports s none k = tt
offer_Reports s (some (b, true)) k = tt
offer_Reports s (some (b, false)) k = ap (λ x. record s.bbo { best_offer = x }) k

pub update_bbo_add-Reports :
    (o : Order) (s : BookState)
    → Reports s.bbo (let (u, bbo) = update_bbo_add o s.bbo in some (u, record s { bbo = bbo }))
unfolding update_bbo_add
update_bbo_add-Reports o s = elim (Bool-cases (is_buy o.side)) [
  | inl e ↦
      rw e (
        bid_Reports s (some (added greater o s.bbo.best_bid)) (added-Kept greater o s.bbo.best_bid))
  | inr e ↦
      rw e (
        offer_Reports s (some (added less o s.bbo.best_offer)) (added-Kept less o s.bbo.best_offer))
]

pub remove_bid_or_offer-keeps : (o : Order) (s : BookState) → (remove_bid_or_offer o s).bbo ≡ s.bbo
unfolding remove_bid_or_offer
remove_bid_or_offer-keeps o s = elim (Bool-cases (is_buy o.side)) [
  | inl e ↦ rw e refl
  | inr e ↦ rw e refl
]

pub add_bid_or_offer-keeps : (o : Order) (s : BookState) → (add_bid_or_offer o s).bbo ≡ s.bbo
unfolding add_bid_or_offer
add_bid_or_offer-keeps o s = elim (Bool-cases (is_buy o.side)) [
  | inl e ↦ rw e refl
  | inr e ↦ rw e refl
]
