-- ===== src/Book/State/SideOk.antt =====
-- One side of the book: its prices in order, a level with a quantity at each of them, and its best
-- price. Each way in which an event changes a level keeps both sides so.
use hft_architecture.Base.{
  ℕ, ◌+◌, ◌<◌, ◌≡◌, refl, sym, ap, ◌∙◌, ◌≢◌, ◌⊎◌, Bool, true, false, Option, none, some, List,
  arith, eq_of_==, u32_mod,
}
use hft_architecture.Order.{Order}
use hft_architecture.Book.PriceSet.{
  IsBetter, contains, insert, erase, IsSorted, insert-IsSorted, erase-IsSorted, contains-insert,
  contains-erase,
}
use hft_architecture.Book.State.{PriceLevel, BestOrderInfo, LevelOf, added, reduced}
use hft_architecture.Book.State.Bbo.{
  total_of, best_of, Changes, best_of_other, added_open, added_join, reduced_close, reduced_leave,
}

pub record SideOk (better : ℕ → ℕ → Bool) (absent : ℕ) (level_of : LevelOf) (prices : List ℕ)
    (best : BestOrderInfo) : Type 0 where
  pub sorted : IsSorted better prices
  pub stands : (p : ℕ) → contains p prices ≡ true → level_of p ≢ none
  pub filled : (p : ℕ) → contains p prices ≡ true → 0 < total_of (level_of p)
  pub fits : (p : ℕ) → contains p prices ≡ true → total_of (level_of p) < u32_mod
  pub first : best ≡ best_of level_of prices absent

module _ (better : ℕ → ℕ → Bool) (order : IsBetter better) (absent : ℕ) (old new : LevelOf) (p : ℕ)
    (level : Option PriceLevel) (ch : Changes old new p level) (prices : List ℕ)
    (best : BestOrderInfo) (ok : SideOk better absent old prices best) where
  -- A change at a price that the side does not hold.
  pub SideOk-other : contains p prices ≡ false → SideOk better absent new prices best
  SideOk-other out = record {
    sorted = ok.sorted;
    stands = λ q h. ground (arith, ch q, ok.stands q, eq_of_== q p);
    filled = λ q h. ground (arith, ch q, ok.filled q, eq_of_== q p);
    fits = λ q h. ground (arith, ch q, ok.fits q, eq_of_== q p);
    first = ok.first ∙ sym (best_of_other old new p level ch prices absent out);
  }

  module _ (o : Order) (at : o.price ≡ p) where
    pub SideOk-open :
        contains p prices ≡ false
        → (p ≡ absent) ⊎ (better p absent ≡ true)
        → level ≢ none
        → total_of level ≡ o.quantity
        → 0 < o.quantity
        → o.quantity < u32_mod
        → SideOk better absent new (insert better p prices) (added better o best).0
    SideOk-open out room there total pos fit = record {
      sorted = insert-IsSorted order p prices ok.sorted;
      stands = λ q h. ground (arith, ch q, contains-insert order p q prices, ok.stands q);
      filled = λ q h. ground (arith, ch q, contains-insert order p q prices, ok.filled q);
      fits = λ q h. ground (arith, ch q, contains-insert order p q prices, ok.fits q);
      first =
          ap (λ b. (added better o b).0) ok.first
          ∙ added_open old new p level ch o at better order absent prices out room total fit;
    }

    pub SideOk-join :
        contains p prices ≡ true
        → level ≢ none
        → total_of level ≡ total_of (old p) + o.quantity
        → total_of level < u32_mod
        → SideOk better absent new prices (added better o best).0
    SideOk-join inside there total fit = record {
      sorted = ok.sorted;
      stands = λ q h. ground (arith, ch q, ok.stands q);
      filled = λ q h. ground (arith, ch q, ok.filled q, ok.filled p);
      fits = λ q h. ground (arith, ch q, ok.fits q);
      first =
          ap (λ b. (added better o b).0) ok.first
          ∙ added_join old new p level ch o at better order absent prices ok.sorted inside total
              fit;
    }

    pub SideOk-close :
        contains p prices ≡ true
        → level ≡ none
        → total_of (old p) ≡ o.quantity
        → (best' : BestOrderInfo) × (changed : Bool) × (reduced new (erase p prices) absent o best
            ≡ some (best', changed))
          × SideOk better absent new (erase p prices) best'
    SideOk-close inside gone total =
        let (changed, run) =
          reduced_close old new p level ch o at better order absent prices ok.sorted inside gone
            ok.fits ok.stands total in
        (
          best_of new (erase p prices) absent,
          changed,
          ap (reduced new (erase p prices) absent o) ok.first ∙ run,
          record {
            sorted = erase-IsSorted order p prices ok.sorted;
            stands =
                λ q h. ground (arith, ch q, contains-erase order p q prices ok.sorted, ok.stands q);
            filled =
                λ q h. ground (arith, ch q, contains-erase order p q prices ok.sorted, ok.filled q);
            fits =
                λ q h. ground (arith, ch q, contains-erase order p q prices ok.sorted, ok.fits q);
            first = refl;
          },
        )

    pub SideOk-leave :
        contains p prices ≡ true
        → level ≢ none
        → total_of level + o.quantity ≡ total_of (old p)
        → 0 < total_of level
        → (best' : BestOrderInfo) × (changed : Bool) × (reduced new prices absent o best
            ≡ some (best', changed))
          × SideOk better absent new prices best'
    SideOk-leave inside there total more =
        let (changed, run) =
          reduced_leave old new p level ch o at better order absent prices inside total more
            (ok.fits p inside) in
        (
          best_of new prices absent,
          changed,
          ap (reduced new prices absent o) ok.first ∙ run,
          record {
            sorted = ok.sorted;
            stands = λ q h. ground (arith, ch q, ok.stands q);
            filled = λ q h. ground (arith, ch q, ok.filled q);
            fits = λ q h. ground (arith, ch q, ok.fits q, ok.fits p);
            first = refl;
          },
        )
