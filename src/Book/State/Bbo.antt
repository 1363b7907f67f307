-- ===== src/Book/State/Bbo.antt =====
-- The best price of a side against its set of prices and its levels: what `added` and `reduced`
-- compute is the first price of the new set, with the total of its level.
use hft_architecture.Base.{
  ℕ, ◌+◌, ◌<◌, ◌≡◌, refl, ◌≢◌, ◌⊎◌, inl, inr, Bool, true, false, Option, none, some, List, [], ◌∷◌,
  arith, ◌==◌, if◌then◌else◌, ==_self, eq_of_==, Bool-cases, Option-cases, u32_mod,
}
use hft_architecture.Order.{Order}
use hft_architecture.Book.PriceSet.{IsBetter, contains, insert, erase, IsSorted, Leads}
use hft_architecture.Book.State.{PriceLevel, BestOrderInfo, LevelOf, added, reduced}

abbrev pub total_of : Option PriceLevel → ℕ
total_of none = 0
total_of (some level) = level.total_quantity

-- What the best price of a side should be.
abbrev pub best_of : LevelOf → List ℕ → ℕ → BestOrderInfo
best_of level_of [] absent = record { price = absent; quantity = 0 }
best_of level_of (p ∷ _) absent = record { price = p; quantity = total_of (level_of p) }

-- `new` is `old` but for what stands at price `p`.
abbrev pub Changes : LevelOf → LevelOf → ℕ → Option PriceLevel → Type 0
Changes old new p level = (q : ℕ) → new q ≡ (if q == p then level else old q)

-- A price of a list that `x` leads comes behind `x`.
behind :
    {better : ℕ → ℕ → Bool} (order : IsBetter better) (p x : ℕ) (xs : List ℕ)
    → contains p xs ≡ true
    → Leads better x xs
    → (better x p ≡ true) × (better p x ≡ false)
behind order p x [] h l = cc
behind {better} order p x (y ∷ ys) h l = elim (Bool-cases (p == y)) [
  | inl same ↦ both (rw (eq_of_== p y same) l.0)
  | inr other ↦ behind order p x ys (ground arith) l.1
]
  where
    both : better x p ≡ true → (better x p ≡ true) × (better p x ≡ false)
    both e = ground (arith, order.transitive p x p, order.irreflexive p)

second : (x y : ℕ) (ys : List ℕ) → contains y (x ∷ y ∷ ys) ≡ true
second x y ys = ground (arith, ==_self y)

module _ (old new : LevelOf) (p : ℕ) (level : Option PriceLevel)
    (ch : Changes old new p level) where
  -- A change at a price that a side does not hold leaves the side's best as it is.
  pub best_of_other :
      (prices : List ℕ) (absent : ℕ)
      → contains p prices ≡ false
      → best_of new prices absent ≡ best_of old prices absent
  best_of_other [] absent h = refl
  best_of_other (x ∷ prices) absent h = ground (arith, ch x)

  module _ (o : Order) (at : o.price ≡ p) (better : ℕ → ℕ → Bool) (order : IsBetter better)
      (absent : ℕ) where
    -- An order that opens a level.
    pub added_open :
        (prices : List ℕ)
        → contains p prices ≡ false
        → (p ≡ absent) ⊎ (better p absent ≡ true)
        → total_of level ≡ o.quantity
        → o.quantity < u32_mod
        → (added better o (best_of old prices absent)).0
          ≡ best_of new (insert better p prices) absent
    unfolding added insert
    added_open [] h room total fits = ground (arith, ch p, room)
    added_open (x ∷ prices) h room total fits = ground (arith, ch p, ch x)

    -- An order that joins a level.
    pub added_join :
        (prices : List ℕ)
        → IsSorted better prices
        → contains p prices ≡ true
        → total_of level ≡ total_of (old p) + o.quantity
        → total_of level < u32_mod
        → (added better o (best_of old prices absent)).0 ≡ best_of new prices absent
    unfolding added
    added_join [] s h total fits = cc
    added_join (x ∷ prices) s h total fits = elim (Bool-cases (p == x)) [
      | inl same ↦ ground (arith, ch p, ch x, order.irreflexive p, eq_of_== p x same)
      | inr other ↦ ground (arith, ch x, behind order p x prices (ground arith) s.0)
    ]

    -- A reduction that closes the level.
    pub reduced_close :
        (prices : List ℕ)
        → IsSorted better prices
        → contains p prices ≡ true
        → level ≡ none
        → ((q : ℕ) → contains q prices ≡ true → total_of (old q) < u32_mod)
        → ((q : ℕ) → contains q prices ≡ true → old q ≢ none)
        → total_of (old p) ≡ o.quantity
        → (changed : Bool) × (reduced new (erase p prices) absent o (best_of old prices absent)
            ≡ some (best_of new (erase p prices) absent, changed))
    unfolding reduced erase
    reduced_close [] s h gone fits stands total = cc
    reduced_close (x ∷ []) s h gone fits stands total =
        (true, ground (arith, ==_self o.price, ==_self o.quantity))
    reduced_close (x ∷ y ∷ ys) s h gone fits stands total = elim (Bool-cases (p == x)) [
      | inl same ↦ (
        true,
        ground (
          arith,
          eq_of_== p x same,
          ch y,
          fits y (second x y ys),
          stands y (second x y ys),
          order.irreflexive x,
          eq_of_== y p,
          Option-cases (old y),
        ),
      )
      | inr other ↦ (false, ground (arith, ch x))
    ]

    -- A reduction that leaves something at the level.
    pub reduced_leave :
        (prices : List ℕ)
        → contains p prices ≡ true
        → total_of level + o.quantity ≡ total_of (old p)
        → 0 < total_of level
        → total_of (old p) < u32_mod
        → (changed : Bool) × (reduced new prices absent o (best_of old prices absent)
            ≡ some (best_of new prices absent, changed))
    unfolding reduced
    reduced_leave [] h total more fits = cc
    reduced_leave (x ∷ prices) h total more fits = elim (Bool-cases (p == x)) [
      | inl same ↦ (true, ground (arith, ch p, ch x, eq_of_== p x same))
      | inr other ↦ (false, ground (arith, ch x))
    ]
