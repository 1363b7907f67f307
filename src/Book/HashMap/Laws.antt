-- ===== src/Book/HashMap/Laws.antt =====
-- ClosedHashMap as a map: lookups after each operation, and the invariant that makes them right.
use hft_architecture.Base.{
  ℕ, ◌%◌, ◌<◌, ◌≡◌, sym, ap, ◌∙◌, inl, inr, none, some, arith, Option-cases, Array,
}
use mathlib.Core.Path.{subst}
use hft_architecture.Book.HashMap.{KeyValuePair, ClosedHashMap, new, home, probe_existing, find}
use hft_architecture.Book.HashMap.Probe.{
  At, step, step-covers, IsValid, existing_sound, existing_complete,
}

-- What a lookup of `key` finds out: no slot holds it, or slot `i` does.
pub data Lookup {V : Type 0} (hash : ℕ → ℕ) (cap : ℕ) (m : ClosedHashMap V) (key : ℕ) : Type 0 where
  absent :
      find hash cap key m ≡ none
      → probe_existing hash cap m key ≡ none
      → ((i : ℕ) → i < cap → ¬ At m key i)
      → Lookup hash cap m key
  present :
      (i : ℕ)
      → i < cap
      → At m key i
      → probe_existing hash cap m key ≡ some i
      → find hash cap key m ≡ some (m.slots i).value
      → Lookup hash cap m key

pub step-zero : (hash : ℕ → ℕ) (cap key : ℕ) → home hash cap key ≡ step hash cap key 0
step-zero hash cap key = ap (λ t. t % cap) (omega arith)

module _ {V : Type 0} (hash : ℕ → ℕ) {cap : ℕ} (pos : 0 < cap) where
  pub found-At :
      (m : ClosedHashMap V) (key i : ℕ)
      → probe_existing hash cap m key ≡ some i
      → (i < cap) × At m key i
  unfolding probe_existing
  found-At m key i e = existing_sound hash pos m key cap 0 i (rw (step-zero hash cap key) at e)

  pub At-found :
      (m : ClosedHashMap V) (key i : ℕ)
      → IsValid hash cap m
      → i < cap
      → At m key i
      → probe_existing hash cap m key ≡ some i
  unfolding probe_existing
  At-found m key i v lt h =
      let (d, near, at) = step-covers hash cap key i lt in
      rw (step-zero hash cap key) (
        existing_complete hash pos m v key cap 0 d (omega arith) (omega arith) near
          (subst (At m key) (sym at) h)
        ∙ ap some at)

  pub look : (m : ClosedHashMap V) (key : ℕ) → IsValid hash cap m → Lookup hash cap m key
  unfolding find
  look m key v = elim (Option-cases (probe_existing hash cap m key)) [
    | inl e ↦ absent (rw (e, find)) e (λ i lt h. missing e i (At-found m key i v lt h))
    | inr (i, e) ↦ let (lt, h) = found-At m key i e in present i lt h e (rw (e, find))
  ]
    where
      missing :
          probe_existing hash cap m key ≡ none
          → (i : ℕ) → probe_existing hash cap m key ≡ some i
          → ⊥
      missing e i q = cc

  -- The value under a key is that of the slot that holds it.
  pub find-At :
      (m : ClosedHashMap V) (key i : ℕ)
      → IsValid hash cap m
      → i < cap
      → At m key i
      → find hash cap key m ≡ some (m.slots i).value
  unfolding find
  find-At m key i v lt h = rw (At-found m key i v lt h, find)

  -- No slot holds the key: it is not in the map.
  pub find-absent :
      (m : ClosedHashMap V) (key : ℕ)
      → IsValid hash cap m
      → ((i : ℕ) → i < cap → ¬ At m key i)
      → find hash cap key m ≡ none
  find-absent m key v never = go (look m key v)
    where
      go : Lookup hash cap m key → find hash cap key m ≡ none
      go (absent e q n) = e
      go (present i lt h q e) = absurd (never i lt h)

  -- The constructor's map is valid and holds no key.
  pub new-IsValid : (storage : Array (KeyValuePair V)) → IsValid hash cap (new storage)
  new-IsValid storage = record { unique = λ i j hi hj used. cc; reached = λ key d e lt h. cc }

  pub find-new :
      (storage : Array (KeyValuePair V)) (key : ℕ) → find hash cap key (new storage) ≡ none
  find-new storage key = find-absent (new storage) key (new-IsValid storage) (λ i lt h. cc)
