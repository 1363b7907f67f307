-- ===== src/Book/PriceSet.antt =====
-- What BookState uses of `std::set<Order::Price, Compare>`: an ordered list without repetitions, best
-- price first. `Compare` is `std::greater` for bids and `std::less` for offers.
use hft_architecture.Base.{
  ℕ, ◌≡◌, refl, Bool, true, false, List, [], ◌∷◌, arith, ltb, ◌==◌, if◌then◌else◌,
}

-- a strict order of prices
pub record IsBetter (better : ℕ → ℕ → Bool) : Type 0 where
  pub irreflexive : (a : ℕ) → better a a ≡ false
  pub transitive : (a b c : ℕ) → better a b ≡ true → better b c ≡ true → better a c ≡ true
  pub total : (a b : ℕ) → better a b ≡ false → better b a ≡ false → a ≡ b

abbrev pub greater : ℕ → ℕ → Bool
greater a b = ltb b a

abbrev pub less : ℕ → ℕ → Bool
less a b = ltb a b

pub greater-IsBetter : IsBetter greater
greater-IsBetter = record {
  irreflexive = λ a. ground arith;
  transitive = λ a b c p q. ground arith;
  total = λ a b p q. ground arith;
}

pub less-IsBetter : IsBetter less
less-IsBetter = record {
  irreflexive = λ a. ground arith;
  transitive = λ a b c p q. ground arith;
  total = λ a b p q. ground arith;
}

abbrev pub contains : ℕ → List ℕ → Bool
contains p [] = false
contains p (x ∷ xs) = if p == x then true else contains p xs

unfoldable pub insert : (ℕ → ℕ → Bool) → ℕ → List ℕ → List ℕ
insert better p [] = p ∷ []
insert better p (x ∷ xs) =
    let rest = insert better p xs in
    if better p x then p ∷ x ∷ xs else if better x p then x ∷ rest else x ∷ xs

unfoldable pub erase : ℕ → List ℕ → List ℕ
erase p [] = []
erase p (x ∷ xs) = let rest = erase p xs in if p == x then xs else x ∷ rest

-- `x` comes before every price of the list.
abbrev pub Leads : (ℕ → ℕ → Bool) → ℕ → List ℕ → Type 0
Leads better x [] = Unit
Leads better x (y ∷ ys) = (better x y ≡ true) × Leads better x ys

abbrev pub IsSorted : (ℕ → ℕ → Bool) → List ℕ → Type 0
IsSorted better [] = Unit
IsSorted better (x ∷ xs) = Leads better x xs × IsSorted better xs

module _ {better : ℕ → ℕ → Bool} (order : IsBetter better) where
  pub Leads-step :
      (a b : ℕ) (xs : List ℕ) → better a b ≡ true → Leads better b xs → Leads better a xs
  Leads-step a b [] h l = tt
  Leads-step a b (x ∷ xs) h l = (order.transitive a b x h l.0, Leads-step a b xs h l.1)

  Leads-insert :
      (a p : ℕ) (xs : List ℕ)
      → better a p ≡ true
      → Leads better a xs
      → Leads better a (insert better p xs)
  unfolding insert
  Leads-insert a p [] h l = (h, tt)
  Leads-insert a p (x ∷ xs) h l = ground (arith, Leads-insert a p xs h l.1)

  Leads-erase : (a p : ℕ) (xs : List ℕ) → Leads better a xs → Leads better a (erase p xs)
  unfolding erase
  Leads-erase a p [] l = tt
  Leads-erase a p (x ∷ xs) l = ground (arith, Leads-erase a p xs l.1)

  pub not-contains-Leads : (a : ℕ) (xs : List ℕ) → Leads better a xs → contains a xs ≡ false
  not-contains-Leads a [] l = refl
  not-contains-Leads a (x ∷ xs) l = ground (arith, order.irreflexive a, not-contains-Leads a xs l.1)

  pub insert-IsSorted :
      (p : ℕ) (xs : List ℕ) → IsSorted better xs → IsSorted better (insert better p xs)
  unfolding insert
  insert-IsSorted p [] s = (tt, tt)
  insert-IsSorted p (x ∷ xs) s =
      ground (arith, insert-IsSorted p xs s.1, Leads-insert x p xs, Leads-step p x xs)

  pub erase-IsSorted : (p : ℕ) (xs : List ℕ) → IsSorted better xs → IsSorted better (erase p xs)
  unfolding erase
  erase-IsSorted p [] s = tt
  erase-IsSorted p (x ∷ xs) s = ground (arith, erase-IsSorted p xs s.1, Leads-erase x p xs s.0)

  -- After `insert` the set holds the new price and those that it held.
  pub contains-insert :
      (p q : ℕ) (xs : List ℕ)
      → contains q (insert better p xs) ≡ (if q == p then true else contains q xs)
  unfolding insert
  contains-insert p q [] = refl
  contains-insert p q (x ∷ xs) = ground (arith, contains-insert p q xs, order.total p x)

  -- After `erase` it holds those that it held but the erased one.
  pub contains-erase :
      (p q : ℕ) (xs : List ℕ)
      → IsSorted better xs
      → contains q (erase p xs) ≡ (if q == p then false else contains q xs)
  unfolding erase
  contains-erase p q [] s = ground arith
  contains-erase p q (x ∷ xs) s =
      ground (arith, contains-erase p q xs s.1, not-contains-Leads x xs s.0)
