-- ===== src/Book/HashMap/Update.antt =====
-- ClosedHashMap as a map: lookups after `add`, `remove` and a write, which keep the invariant.
use hft_architecture.Base.{
  ℕ, ◌+◌, ◌-◌, ◌%◌, ◌<◌, ◌≡◌, refl, sym, ap, ◌∙◌, ◌≢◌, ◌↔◌, inl, inr, true, false, none, some,
  arith, dec_lt, ◌==◌, if◌then◌else◌, ==_self, eq_of_==, ne_of_==, Bool-cases, Option-cases, put,
  slot-ne,
}
use native.Mathlib.Nat.{mod-lt}
use hft_architecture.Book.HashMap.{
  tombstone, occupied, ClosedHashMap, probe_new, add, remove, find, assign,
}
use hft_architecture.Book.HashMap.Probe.{At, step, step-covers, IsValid, new_sound, new_complete}
use hft_architecture.Book.HashMap.Laws.{
  Lookup, absent, present, step-zero, look, find-At, find-absent,
}

-- A path visits no slot twice.
step-injective :
    (hash : ℕ → ℕ) (cap key d e : ℕ)
    → d < cap
    → e < cap
    → step hash cap key d ≡ step hash cap key e
    → d ≡ e
step-injective hash cap key d e hd he q = elim (dec_lt d e) [
  | yes p ↦ absurd (further d e p hd he (sym q))
  | no p ↦ elim (dec_lt e d) [ yes r ↦ absurd (further e d r he hd q) | no r ↦ omega arith ]
]
  where
    further : (a b : ℕ) → a < b → a < cap → b < cap → step hash cap key b ≡ step hash cap key a → ⊥
    further a b lt ha hb e =
        slot-ne (hash key + a) (b - a - 1) (omega arith) (omega arith)
          (ap (λ t. t % cap) (omega arith) ∙ e)

module _ {V : Type 0} (hash : ℕ → ℕ) {cap : ℕ} (pos : 0 < cap) where
  -- where `add` writes: the first slot of the path that is not in use
  record Free (m : ClosedHashMap V) (key i : ℕ) : Type 0 where
    range : i < cap
    free : m.status i ≢ occupied
    depth : ℕ
    near : depth < cap
    here : i ≡ step hash cap key depth
    before : (f : ℕ) → f < depth → m.status (step hash cap key f) ≡ occupied

  Free-slot : (m : ClosedHashMap V) (key i : ℕ) → probe_new hash cap m key ≡ some i → Free m key i
  unfolding probe_new
  Free-slot m key i e =
      let (d, at, lo, hi, free, before) =
        new_sound hash pos m key cap 0 i (rw (step-zero hash cap key) at e) in
      record {
        range = rw at (mod-lt (hash key + d) pos);
        free = free;
        depth = d;
        near = omega arith;
        here = at;
        before = λ f lt. before f (omega arith) lt;
      }

  abbrev stored : ClosedHashMap V → ℕ → ℕ → V → ClosedHashMap V
  stored m key i value = record {
    slots = put m.slots i (record { key = key; value = value });
    status = put m.status i occupied;
  }

  module _ (m : ClosedHashMap V) (v : IsValid hash cap m) (key i : ℕ) (value : V) where
    stored-IsValid :
        Free m key i → ((j : ℕ) → j < cap → ¬ At m key j) → IsValid hash cap (stored m key i value)
    stored-IsValid f never = record {
      unique = λ a b ha hb ua ub same. ground (arith, v.unique a b, never a, never b);
      reached = λ k d e hd h lt. elim (Bool-cases (i == step hash cap k d)) [
        | inl here ↦
            let same : key ≡ k = ground arith in
            let depth : d ≡ f.depth =
              step-injective hash cap key d f.depth hd f.near
                (rw (← same) at (sym (eq_of_== _ _ here)) ∙ f.here) in
            ground (arith, f.before e)
        | inr other ↦ ground (arith, v.reached k d e hd)
      ];
    }

    stored-find :
        Free m key i
        → ((j : ℕ) → j < cap → ¬ At m key j)
        → (q : ℕ)
        → find hash cap q (stored m key i value)
          ≡ (if q == key then some value else find hash cap q m)
    stored-find f never q = elim (Bool-cases (q == key)) [
      | inl same ↦
          let e = eq_of_== q key same in
          let found = find-At hash pos (stored m key i value) key i valid f.range stored_here in
          rw same (rw e (ground (arith, found, ==_self i)))
      | inr other ↦ rw other (unchanged (ne_of_== q key other) (look hash pos m q v))
    ]
      where
        valid : IsValid hash cap (stored m key i value)
        valid = stored-IsValid f never

        stored_here : At (stored m key i value) key i
        stored_here = ground (arith, ==_self i)

        unchanged :
            q ≢ key
            → Lookup hash cap m q
            → find hash cap q (stored m key i value) ≡ find hash cap q m
        unchanged ne (absent e _ none_at) =
            find-absent hash pos (stored m key i value) q valid
              (λ j lt h. ground (arith, none_at j lt))
            ∙ sym e
        unchanged ne (present j lt h _ e) =
            find-At hash pos (stored m key i value) q j valid lt (ground arith) ∙ ground arith

  -- After `add` of a key that is not in the map, the map is valid, the key has the new value, and
  -- every other key the value that it had.
  pub add_lem :
      (m m' : ClosedHashMap V) (key : ℕ) (value : V)
      → IsValid hash cap m
      → find hash cap key m ≡ none
      → add hash cap key value m ≡ some m'
      → IsValid hash cap m'
        × ((q : ℕ) → find hash cap q m' ≡ (if q == key then some value else find hash cap q m))
  unfolding add
  add_lem m m' key value v none_found added = elim (Option-cases (probe_new hash cap m key)) [
    | inl full ↦ absurd (stuck full)
    | inr (i, e) ↦
        let f = Free-slot m key i e in
        let never = not_stored in
        let same : m' ≡ stored m key i value = ground arith in
        rw same (stored-IsValid m v key i value f never, stored-find m v key i value f never)
  ]
    where
      stuck : probe_new hash cap m key ≡ none → ⊥
      stuck full = ground arith

      not_stored : (j : ℕ) → j < cap → ¬ At m key j
      not_stored j lt h = ground (arith, find-At hash pos m key j v lt h)

  -- `add` has room if any slot is free.
  pub add-ne-none :
      (m : ClosedHashMap V) (key i : ℕ) (value : V)
      → i < cap
      → m.status i ≢ occupied
      → add hash cap key value m ≢ none
  unfolding add probe_new
  add-ne-none m key i value lt free =
      let (d, near, at) = step-covers hash cap key i lt in
      ground (arith, step-zero hash cap key, ap m.status at, new_complete hash pos m key cap 0 d)

  module _ (m : ClosedHashMap V) (v : IsValid hash cap m) (key i : ℕ) (lt : i < cap)
      (h : At m key i) where
    abbrev buried : ClosedHashMap V
    buried = record m { status = put m.status i tombstone }

    buried-IsValid : IsValid hash cap buried
    buried-IsValid = record {
      unique = λ a b ha hb ua ub same. ground (arith, v.unique a b);
      reached = λ k d e hd at le. ground (arith, v.reached k d e hd);
    }

    buried-find : (q : ℕ) → find hash cap q buried ≡ (if q == key then none else find hash cap q m)
    buried-find q = elim (Bool-cases (q == key)) [
      | inl same ↦ rw same (find-absent hash pos buried q buried-IsValid (gone same))
      | inr other ↦ rw other (unchanged (ne_of_== q key other) (look hash pos m q v))
    ]
      where
        gone : (q == key) ≡ true → (j : ℕ) → j < cap → ¬ At buried q j
        gone same j lt' at = ground (arith, v.unique i j)

        unchanged : q ≢ key → Lookup hash cap m q → find hash cap q buried ≡ find hash cap q m
        unchanged ne (absent e _ none_at) =
            find-absent hash pos buried q buried-IsValid (λ j lt' at. ground (arith, none_at j lt'))
            ∙ sym e
        unchanged ne (present j lt' at _ e) =
            find-At hash pos buried q j buried-IsValid lt' (ground arith) ∙ ground arith

    module _ (value : V) where
      abbrev rewritten : ClosedHashMap V
      rewritten = record m {
        slots = put m.slots i (record { key = (m.slots i).key; value = value });
      }

      keys : (j : ℕ) → (rewritten.slots j).key ≡ (m.slots j).key
      keys j = ground arith

      rewritten-IsValid : IsValid hash cap rewritten
      rewritten-IsValid = record {
        unique = λ a b ha hb ua ub same. ground (arith, keys a, keys b, v.unique a b);
        reached = λ k d e hd at le. ground (arith, keys (step hash cap k d), v.reached k d e hd);
      }

      rewritten-find :
          (q : ℕ) → find hash cap q rewritten ≡ (if q == key then some value else find hash cap q m)
      rewritten-find q = elim (Bool-cases (q == key)) [
        | inl same ↦
            let found =
              find-At hash pos rewritten key i rewritten-IsValid lt (ground (arith, keys i)) in
            rw same (rw (eq_of_== q key same) (ground (arith, found)))
        | inr other ↦ rw other (unchanged (ne_of_== q key other) (look hash pos m q v))
      ]
        where
          unchanged : q ≢ key → Lookup hash cap m q → find hash cap q rewritten ≡ find hash cap q m
          unchanged ne (absent e _ none_at) =
              find-absent hash pos rewritten q rewritten-IsValid
                (λ j lt' at. ground (arith, keys j, none_at j lt'))
              ∙ sym e
          unchanged ne (present j lt' at _ e) =
              find-At hash pos rewritten q j rewritten-IsValid lt' (ground (arith, keys j))
              ∙ ground arith

  -- `remove` answers whether the key was there; after it the map is valid, the key is gone, and
  -- every other key has the value that it had.
  pub remove_lem :
      (m : ClosedHashMap V) (key : ℕ)
      → IsValid hash cap m
      → let (done, m') = remove hash cap key m in
        IsValid hash cap m'
        × ((done ≡ false) ↔ (find hash cap key m ≡ none))
        × ((q : ℕ) → find hash cap q m' ≡ (if q == key then none else find hash cap q m))
  unfolding remove
  remove_lem m key v = go (look hash pos m key v)
    where
      untouched :
          find hash cap key m ≡ none
          → (q : ℕ) → find hash cap q m ≡ (if q == key then none else find hash cap q m)
      untouched e q = ground (arith, eq_of_== q key)

      go :
          Lookup hash cap m key
          → IsValid hash cap (remove hash cap key m).1
            × (((remove hash cap key m).0 ≡ false) ↔ (find hash cap key m ≡ none))
            × ((q : ℕ)
                → find hash cap q (remove hash cap key m).1
                  ≡ (if q == key then none else find hash cap q m))
      go (absent e p never) = rw (p, remove) (v, ((λ _. e), (λ _. refl)), untouched e)
      go (present i lt h p e) =
          rw (p, remove)
            (buried-IsValid m v key i lt h, ((λ q. cc), (λ q. cc)), buried-find m v key i lt h)

  -- A write through the reference that `find` returned for a key of the map keeps the map valid, and
  -- changes the value of that key alone.
  pub assign_lem :
      (m : ClosedHashMap V) (key : ℕ) (value : V)
      → IsValid hash cap m
      → find hash cap key m ≢ none
      → let m' = assign hash cap key value m in
        IsValid hash cap m'
        × ((q : ℕ) → find hash cap q m' ≡ (if q == key then some value else find hash cap q m))
  unfolding assign
  assign_lem m key value v there = go (look hash pos m key v)
    where
      go :
          Lookup hash cap m key
          → IsValid hash cap (assign hash cap key value m)
            × ((q : ℕ)
                → find hash cap q (assign hash cap key value m)
                  ≡ (if q == key then some value else find hash cap q m))
      go (absent e p never) = absurd (there e)
      go (present i lt h p e) =
          rw (p, assign)
            (rewritten-IsValid m v key i lt h value, rewritten-find m v key i lt h value)
