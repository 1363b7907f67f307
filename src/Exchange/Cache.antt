-- ===== src/Exchange/Cache.antt =====
-- includes/utils/circular-cache.hpp: CircularCache, its calls taken one at a time. A slot's sequence
-- number is a `uint32_t`; the index of the next write is a `size_t`, cut to 32 bits where it is used.
pub mod Laws
use hft_architecture.Base.{
  ℕ, zero, suc, ◌-◌, ◌%◌, ◌^◌, ltb, ◌==◌, if◌then◌else◌, Array, put, u32_mod, add64,
}

pub data CacheError : Type 0 where
  data_too_old data_does_not_exist concurrent_write : CacheError

-- `std::expected` of an item
pub data Expected {ℓ} (A : Type ℓ) : Type ℓ where
  item : A → Expected A
  unexpected : CacheError → Expected A

pub record CircularCache {ℓ} (A : Type ℓ) : Type ℓ where
  pub write_index : ℕ
  pub sequence : Array ℕ
  pub buffer : Array A

-- The sequence numbers start as zeros, as `std::atomic` leaves them.
abbrev pub fresh {ℓ} : {A : Type ℓ} → Array A → CircularCache A
fresh storage = record { write_index = 0; sequence = λ i. 0; buffer = storage }

abbrev pub is_locked : ℕ
is_locked = 2 ^ 32 - 1

module _ {ℓ} {A : Type ℓ} (cap : ℕ) where
  -- No write comes between the two loads of the sequence number.
  unfoldable pub try_get_item : ℕ → CircularCache A → Expected A
  try_get_item item_index s =
      let read_index = item_index % cap in
      let seq = s.sequence read_index in
      if seq == is_locked
      then unexpected concurrent_write
      else if ltb seq item_index
      then unexpected data_does_not_exist
      else if ltb item_index seq
      then unexpected data_too_old
      else item (s.buffer read_index)

  unfoldable pub put_item : A → CircularCache A → CircularCache A
  put_item a s =
      let write_index = s.write_index % u32_mod % cap in
      record s {
        write_index = add64 s.write_index 1;
        sequence = put (put s.sequence write_index is_locked) write_index (s.write_index % u32_mod);
        buffer = put s.buffer write_index a;
      }

  -- the items `packet n`, `packet (n + 1)` and so on, put one after the other
  unfoldable pub fill : (ℕ → A) → ℕ → ℕ → CircularCache A → CircularCache A
  fill packet n zero s = s
  fill packet n (suc k) s = fill packet (suc n) k (put_item (packet n) s)
