-- ===== src/Book/HashMap.antt =====
-- includes/order-book/closed-hash-map.hpp: ClosedHashMap, linear probing with tombstones. The keys of
-- both uses, prices and order ids, are numbers; `std::hash` of a key is the argument `hash`. `none`
-- stands for NULL_INDEX, and `hash(key) & MASK` is a remainder, a capacity being a power of two.
pub mod Probe
pub mod Laws
pub mod Update
use hft_architecture.Base.{
  ℕ, zero, suc, ◌+◌, ◌%◌, Bool, true, false, Option, none, some, ◌==◌, if◌then◌else◌, Array, put,
}

pub data SlotStatus : Type 0 where
  empty tombstone occupied : SlotStatus

pub record KeyValuePair (V : Type 0) : Type 0 where
  pub key : ℕ
  pub value : V

pub record ClosedHashMap (V : Type 0) : Type 0 where
  pub slots : Array (KeyValuePair V)
  pub status : Array SlotStatus

-- the constructor, whose slots hold whatever `storage` held
abbrev pub new : {V : Type 0} → Array (KeyValuePair V) → ClosedHashMap V
new storage = record { slots = storage; status = λ i. empty }

-- the static `hash`, `hash(key) & MASK`
abbrev pub home : (ℕ → ℕ) → ℕ → ℕ → ℕ
home hash cap key = hash key % cap

module _ {V : Type 0} (hash : ℕ → ℕ) (cap : ℕ) where
  -- the rounds left of the loop in `probe_new`, at slot `idx`
  pub probe_new_from : ClosedHashMap V → ℕ → ℕ → Option ℕ
  probe_new_from m zero idx = none
  probe_new_from m (suc probes) idx =
      let rest = probe_new_from m probes ((idx + 1) % cap) in
      elim (m.status idx) [ occupied ↦ rest | _ ↦ some idx ]

  pub probe_new : ClosedHashMap V → ℕ → Option ℕ
  unfolding probe_new_from
  probe_new m key = probe_new_from m cap (home hash cap key)

  pub probe_existing_from : ClosedHashMap V → ℕ → ℕ → ℕ → Option ℕ
  probe_existing_from m key zero idx = none
  probe_existing_from m key (suc probes) idx =
      let rest = probe_existing_from m key probes ((idx + 1) % cap) in
      elim (m.status idx) [
        | empty ↦ none
        | tombstone ↦ rest
        | occupied ↦ if (m.slots idx).key == key then some idx else rest
      ]

  pub probe_existing : ClosedHashMap V → ℕ → Option ℕ
  unfolding probe_existing_from
  probe_existing m key = probe_existing_from m key cap (home hash cap key)

  -- `none` is the failed assertion of a full map.
  unfoldable pub add : ℕ → V → ClosedHashMap V → Option (ClosedHashMap V)
  unfolding probe_new
  add key value m = elim (probe_new m key) [
    | none ↦ none
    | some i ↦ some (record {
      slots = put m.slots i (record { key = key; value = value });
      status = put m.status i occupied;
    })
  ]

  unfoldable pub remove : ℕ → ClosedHashMap V → Bool × ClosedHashMap V
  unfolding probe_existing
  remove key m = elim (probe_existing m key) [
    | none ↦ (false, m)
    | some i ↦ (true, record m { status = put m.status i tombstone })
  ]

  -- both overloads of `find`, with the reference that they return read at once
  unfoldable pub find : ℕ → ClosedHashMap V → Option V
  unfolding probe_existing
  find key m = elim (probe_existing m key) [ none ↦ none | some i ↦ some (m.slots i).value ]

  -- a write through the reference that `find` returned
  unfoldable pub assign : ℕ → V → ClosedHashMap V → ClosedHashMap V
  unfolding probe_existing
  assign key value m = elim (probe_existing m key) [
    | none ↦ m
    | some i ↦ record m { slots = put m.slots i (record { key = (m.slots i).key; value = value }) }
  ]
