-- ===== src/Book/State/TwoSided.antt =====
-- The two sides of the book together: what each way to change a level on one side does to both.
use hft_architecture.Base.{
  ℕ, ◌+◌, ◌<◌, ◌≡◌, ◌≢◌, ◌⊎◌, Bool, true, false, Option, none, some, List, arith, eq_of_==, u32_mod,
}
use hft_architecture.Order.{Order}
use hft_architecture.Book.PriceSet.{
  IsBetter, contains, insert, erase, contains-insert, contains-erase, greater, less,
}
use hft_architecture.Book.State.{
  PriceLevel, BestOrderInfo, LevelOf, added, reduced, no_bid, no_offer,
}
use hft_architecture.Book.State.Bbo.{total_of, Changes}
use hft_architecture.Book.State.SideOk.{
  SideOk, SideOk-other, SideOk-open, SideOk-join, SideOk-close, SideOk-leave,
}

pub record View : Type 0 where
  pub better : ℕ → ℕ → Bool
  pub absent : ℕ
  pub prices : List ℕ
  pub best : BestOrderInfo

abbrev pub bid_view : List ℕ → BestOrderInfo → View
bid_view prices best = record { better = greater; absent = no_bid; prices = prices; best = best }

abbrev pub offer_view : List ℕ → BestOrderInfo → View
offer_view prices best = record { better = less; absent = no_offer; prices = prices; best = best }

abbrev pub ViewOk : LevelOf → View → Type 0
ViewOk level_of v = SideOk v.better v.absent level_of v.prices v.best

-- No price is on both sides, a level stands only at a price of one, and each side is in order.
pub record TwoSided (level_of : LevelOf) (v w : View) : Type 0 where
  pub apart : (p : ℕ) → contains p v.prices ≡ true → contains p w.prices ≡ false
  pub listed :
      (p : ℕ) → level_of p ≢ none → (contains p v.prices ≡ true) ⊎ (contains p w.prices ≡ true)
  pub this : ViewOk level_of v
  pub that : ViewOk level_of w

pub TwoSided-swap :
    (level_of : LevelOf) (v w : View) → TwoSided level_of v w → TwoSided level_of w v
TwoSided-swap level_of v w t = record {
  apart = λ p h. ground (arith, t.apart p);
  listed = λ p h. ground (arith, t.listed p);
  this = t.that;
  that = t.this;
}

module _ (old new : LevelOf) (p : ℕ) (level : Option PriceLevel) (ch : Changes old new p level)
    (v w : View) (order : IsBetter v.better) (order' : IsBetter w.better) (t : TwoSided old v w)
    (o : Order) (at : o.price ≡ p) where
  that_side : contains p w.prices ≡ false → ViewOk new w
  that_side out =
      SideOk-other w.better order' w.absent old new p level ch w.prices w.best t.that out

  pub TwoSided-open :
      contains p w.prices ≡ false
      → old p ≡ none
      → (p ≡ v.absent) ⊎ (v.better p v.absent ≡ true)
      → level ≢ none
      → total_of level ≡ o.quantity
      → 0 < o.quantity
      → o.quantity < u32_mod
      → TwoSided new
          (record v { prices = insert v.better p v.prices; best = (added v.better o v.best).0 })
          w
  TwoSided-open out empty room there total pos fit = record {
    apart = λ q h. ground (arith, contains-insert order p q v.prices, t.apart q, eq_of_== q p);
    listed = λ q h. ground (arith, contains-insert order p q v.prices, t.listed q, ch q);
    this =
        SideOk-open v.better order v.absent old new p level ch v.prices v.best t.this o at
          (ground (arith, t.this.stands p)) room there total pos fit;
    that = that_side out;
  }

  pub TwoSided-join :
      contains p w.prices ≡ false
      → old p ≢ none
      → level ≢ none
      → total_of level ≡ total_of (old p) + o.quantity
      → total_of level < u32_mod
      → TwoSided new (record v { best = (added v.better o v.best).0 }) w
  TwoSided-join out stood there total fit = record {
    apart = t.apart;
    listed = λ q h. ground (arith, t.listed q, ch q, eq_of_== q p);
    this =
        SideOk-join v.better order v.absent old new p level ch v.prices v.best t.this o at
          (ground (arith, t.listed p)) there total fit;
    that = that_side out;
  }

  pub TwoSided-close :
      contains p v.prices ≡ true
      → level ≡ none
      → total_of (old p) ≡ o.quantity
      → (best : BestOrderInfo) × (changed : Bool) × (reduced new
            (erase p v.prices)
            v.absent
            o
            v.best
          ≡ some (best, changed))
        × TwoSided new (record v { prices = erase p v.prices; best = best }) w
  TwoSided-close inside gone total =
      let (best, changed, run, this) =
        SideOk-close v.better order v.absent old new p level ch v.prices v.best t.this o at inside
          gone total in
      (
        best,
        changed,
        run,
        record {
          apart = λ q h. ground (arith, contains-erase order p q v.prices t.this.sorted, t.apart q);
          listed = λ q h.
              ground (arith, contains-erase order p q v.prices t.this.sorted, t.listed q, ch q);
          this = this;
          that = that_side (t.apart p inside);
        },
      )

  pub TwoSided-leave :
      contains p v.prices ≡ true
      → level ≢ none
      → total_of level + o.quantity ≡ total_of (old p)
      → 0 < total_of level
      → (best : BestOrderInfo) × (changed : Bool) × (reduced new v.prices v.absent o v.best
          ≡ some (best, changed))
        × TwoSided new (record v { best = best }) w
  TwoSided-leave inside there total more =
      let (best, changed, run, this) =
        SideOk-leave v.better order v.absent old new p level ch v.prices v.best t.this o at inside
          there total more in
      (
        best,
        changed,
        run,
        record {
          apart = t.apart;
          listed = λ q h. ground (arith, t.listed q, ch q, eq_of_== q p);
          this = this;
          that = that_side (t.apart p inside);
        },
      )
