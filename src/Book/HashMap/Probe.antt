-- ===== src/Book/HashMap/Probe.antt =====
-- Where the two probes of ClosedHashMap stop.
use hft_architecture.Base.{
  ℕ, zero, suc, ◌+◌, ◌-◌, ◌%◌, ◌≤◌, ◌<◌, ◌≡◌, refl, sym, ap, ◌∙◌, ◌≢◌, ◌⊎◌, inl, inr, none, some,
  arith, dec_lt, ◌==◌, eq_of_==, Bool-cases,
}
use native.Mathlib.Nat.{mod-add-mod, mod-lt, add-mod_right, mod-eq_of_lt}
use hft_architecture.Book.HashMap.{
  SlotStatus, empty, tombstone, occupied, ClosedHashMap, probe_new_from, probe_existing_from,
}

-- Slot `i` holds `key`.
abbrev pub At : {V : Type 0} → ClosedHashMap V → ℕ → ℕ → Type 0
At m key i = (m.status i ≡ occupied) × ((m.slots i).key ≡ key)

-- the slot that a probe for `key` looks at after `d` steps
abbrev pub step : (ℕ → ℕ) → ℕ → ℕ → ℕ → ℕ
step hash cap key d = (hash key + d) % cap

pub step-suc :
    (hash : ℕ → ℕ) (cap key d : ℕ) → (step hash cap key d + 1) % cap ≡ step hash cap key (suc d)
step-suc hash cap key d = mod-add-mod (hash key + d) cap 1 ∙ ap (λ t. t % cap) (omega arith)

-- Every slot lies on every key's path.
pub step-covers :
    (hash : ℕ → ℕ) (cap key i : ℕ) → i < cap → (d : ℕ) × (d < cap) × (step hash cap key d ≡ i)
step-covers hash cap key i h =
    let r = hash key % cap in
    elim (dec_lt i r) [
      | yes p ↦ (
        i + cap - r,
        omega (arith, mod-lt (hash key) {m = cap} (omega arith)),
        sym (mod-add-mod (hash key) cap (i + cap - r))
            ∙ ap (λ t. t % cap) (omega (arith, mod-lt (hash key) {m = cap} (omega arith)))
            ∙ add-mod_right i cap
            ∙ mod-eq_of_lt h,
      )
      | no p ↦ (
        i - r,
        omega arith,
        sym (mod-add-mod (hash key) cap (i - r)) ∙ ap (λ t. t % cap) (omega arith) ∙ mod-eq_of_lt h,
      )
    ]

-- No key is stored twice, and on the path to a stored key no slot is empty.
pub record IsValid {V : Type 0} (hash : ℕ → ℕ) (cap : ℕ) (m : ClosedHashMap V) : Type 0 where
  pub unique :
      (i j : ℕ)
      → i < cap
      → j < cap
      → m.status i ≡ occupied
      → m.status j ≡ occupied
      → (m.slots i).key ≡ (m.slots j).key
      → i ≡ j
  pub reached :
      (key d e : ℕ)
      → d < cap
      → At m key (step hash cap key d)
      → e < d
      → m.status (step hash cap key e) ≢ empty

pub occupied-cases : (s : SlotStatus) → (s ≡ occupied) ⊎ (s ≢ occupied)
occupied-cases empty = inr (λ q. cc)
occupied-cases tombstone = inr (λ q. cc)
occupied-cases occupied = inl refl

module _ {V : Type 0} (hash : ℕ → ℕ) {cap : ℕ} (pos : 0 < cap) (m : ClosedHashMap V) where
  -- What `probe_existing` finds is a slot in range that holds the key.
  pub existing_sound :
      (key n d i : ℕ)
      → probe_existing_from hash cap m key n (step hash cap key d) ≡ some i
      → (i < cap) × At m key i
  unfolding probe_existing_from
  existing_sound key zero d i e = cc
  existing_sound key (suc n) d i e =
      ground
        (arith, step-suc hash cap key d, mod-lt (hash key + d) pos, existing_sound key n (suc d) i)

  -- A stored key is found.
  pub existing_complete :
      IsValid hash cap m
      → (key n d e : ℕ) → d + n ≡ cap
      → d ≤ e
      → e < cap
      → At m key (step hash cap key e)
      → probe_existing_from hash cap m key n (step hash cap key d) ≡ some (step hash cap key e)
  unfolding probe_existing_from
  existing_complete v key zero d e total le lt h = absurd (omega arith)
  existing_complete v key (suc n) d e total le lt h = elim (Bool-cases (d == e)) [
    | inl same ↦ ground (arith, eq_of_== d e same)
    | inr other ↦ ground (
      arith,
      step-suc hash cap key d,
      v.reached key e d lt h,
      v.unique (step hash cap key d) (step hash cap key e) (mod-lt (hash key + d) pos)
          (mod-lt (hash key + e) pos),
      existing_complete v key n (suc d) e,
    )
  ]

  -- `probe_new` stops at a slot that is free, and every slot before it on the path is in use.
  pub new_sound :
      (key n d i : ℕ)
      → probe_new_from hash cap m n (step hash cap key d) ≡ some i
      → (e : ℕ) × (i ≡ step hash cap key e)
        × (d ≤ e)
        × (e < d + n)
        × (m.status i ≢ occupied)
        × ((f : ℕ) → d ≤ f → f < e → m.status (step hash cap key f) ≡ occupied)
  unfolding probe_new_from
  new_sound key zero d i e = cc
  new_sound key (suc n) d i e = elim (occupied-cases (m.status (step hash cap key d))) [
    | inr free ↦
        (d, ground arith, omega arith, omega arith, ground arith, λ f lo hi. absurd (omega arith))
    | inl used ↦
        let (e', at, lo, hi, free, before) = new_sound key n (suc d) i (go_on used) in
        (e', at, omega arith, omega arith, free, λ f from to. earlier used e' before f from to)
  ]
    where
      go_on :
          m.status (step hash cap key d) ≡ occupied
          → probe_new_from hash cap m n (step hash cap key (suc d)) ≡ some i
      go_on used = ground (arith, step-suc hash cap key d)

      earlier :
          m.status (step hash cap key d) ≡ occupied
          → (e' : ℕ) → ((f : ℕ) → suc d ≤ f → f < e' → m.status (step hash cap key f) ≡ occupied)
          → (f : ℕ) → d ≤ f
          → f < e'
          → m.status (step hash cap key f) ≡ occupied
      earlier used e' before f from to = elim (Bool-cases (d == f)) [
        | inl same ↦ rw (← eq_of_== d f same) used
        | inr other ↦ before f (ground arith) to
      ]

  -- `probe_new` finds a slot if one on the path is free.
  pub new_complete :
      (key n d e : ℕ)
      → d ≤ e
      → e < d + n
      → m.status (step hash cap key e) ≢ occupied
      → probe_new_from hash cap m n (step hash cap key d) ≢ none
  unfolding probe_new_from
  new_complete key zero d e le lt free = absurd (omega arith)
  new_complete key (suc n) d e le lt free = ground (
    arith,
    ap m.status (step-suc hash cap key d),
    step-suc hash cap key d,
    new_complete key n (suc d) e,
  )
