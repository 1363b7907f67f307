-- ===== src/Handler/Reorder.antt =====
-- includes/utils/reorder-buffer.hpp: ReorderBuffer, its calls taken one at a time. `CAPACITY` is
-- `cap`, and `& MASK` is the remainder by it, as the class asserts a power of two.
pub mod Laws
use hft_architecture.Base.{
  ℕ, ◌-◌, ◌%◌, Bool, true, false, Option, none, some, List, [], ◌∷◌, ltb, leb, if◌then◌else◌, Array,
  put, add64,
}

pub data Status : Type 0 where
  empty locked ready : Status

pub data WriteStatus : Type 0 where
  likely_slow_reader likely_slow_writer success already_written : WriteStatus

-- The slots' `status` and `data` are an array each.
pub record ReorderBuffer {ℓ} (A : Type ℓ) : Type ℓ where
  pub reader_index : ℕ
  pub status : Array Status
  pub data_of : Array A

-- the constructor, with the storage as it was
abbrev pub fresh {ℓ} : {A : Type ℓ} → Array A → ℕ → ReorderBuffer A
fresh storage initial_reader_index = record {
  reader_index = initial_reader_index;
  status = λ i. empty;
  data_of = storage;
}

abbrev pub is_empty : Status → Bool
is_empty empty = true
is_empty locked = false
is_empty ready = false

abbrev pub is_ready : Status → Bool
is_ready empty = false
is_ready locked = false
is_ready ready = true

-- a call of one of the endpoints: a write of the packet with that number, or a read
pub data Call : Type 0 where
  write : ℕ → Call
  consume : Call

-- what a call returns
pub data Reply {ℓ} (A : Type ℓ) : Type ℓ where
  wrote : WriteStatus → Reply A
  consumed : Option A → Reply A

module _ {ℓ} {A : Type ℓ} (cap : ℕ) where
  unfoldable pub try_consume_next : ReorderBuffer A → Option A × ReorderBuffer A
  try_consume_next s =
      let slot = s.reader_index % cap in
      if is_ready (s.status slot)
      then (
        some (s.data_of slot),
        record s { reader_index = add64 s.reader_index 1; status = put s.status slot empty },
      )
      else (none, s)

  -- the compare-and-swap of a slot's status from empty to locked
  unfoldable pub try_claim_slot : ℕ → ReorderBuffer A → Bool × ReorderBuffer A
  try_claim_slot index s =
      if is_empty (s.status (index % cap))
      then (true, record s { status = put s.status (index % cap) locked })
      else (false, s)

  unfoldable pub validate_and_claim_slot : ℕ → ReorderBuffer A → WriteStatus × ReorderBuffer A
  validate_and_claim_slot index s =
      if leb (add64 s.reader_index (cap - 1)) index
      then (
        if is_ready (s.status (s.reader_index % cap))
            then likely_slow_reader
            else likely_slow_writer,
        s,
      )
      else if ltb index s.reader_index
      then (already_written, s)
      else (let (claimed, s') = try_claim_slot index s in
          (if claimed then success else already_written, s'))

  -- the write to a slot that was claimed
  abbrev pub store : A → ℕ → WriteStatus × ReorderBuffer A → WriteStatus × ReorderBuffer A
  store item index (success, s) = (
    success,
    record s {
      data_of = put s.data_of (index % cap) item;
      status = put s.status (index % cap) ready;
    },
  )
  store item index (likely_slow_reader, s) = (likely_slow_reader, s)
  store item index (likely_slow_writer, s) = (likely_slow_writer, s)
  store item index (already_written, s) = (already_written, s)

  -- both overloads of `try_write_to`, which differ in how the item is copied
  unfoldable pub try_write_to : A → ℕ → ReorderBuffer A → WriteStatus × ReorderBuffer A
  try_write_to item index s = store item index (validate_and_claim_slot index s)

  unfoldable pub run : (ℕ → A) → ReorderBuffer A → List Call → List (Reply A)
  run packet s [] = []
  run packet s (write index ∷ calls) =
      let (answer, s') = try_write_to (packet index) index s in wrote answer ∷ run packet s' calls
  run packet s (consume ∷ calls) =
      let (out, s') = try_consume_next s in consumed out ∷ run packet s' calls
