-- ===== src/Ring/Lazy.antt =====
-- includes/utils/lazy-ring-buffer.hpp: LazyRingBuffer, where an endpoint first claims a slot and
-- later publishes or consumes it. The pointer that a claim returns is the index of its slot.
pub mod Steps
pub mod Safety
use hft_architecture.Base.{
  ℕ, ◌%◌, Bool, Option, none, some, ◌==◌, if◌then◌else◌, Array, put, add64, sub64,
}

-- The producer moves `head`, the consumer `tail`.
pub record LazyRingBuffer {ℓ} (A : Type ℓ) : Type ℓ where
  pub head : ℕ
  pub tail : ℕ
  pub buffer : Array A

abbrev pub empty : ℕ → ℕ → Bool
empty head tail = head == tail

abbrev pub full : ℕ → ℕ → ℕ → Bool
full cap head tail = sub64 head tail == cap

module _ {ℓ} {A : Type ℓ} (cap : ℕ) where
  -- the slot to write, or `none` for a full buffer
  unfoldable pub try_get_head_ref : LazyRingBuffer A → Option ℕ
  try_get_head_ref s = if full cap s.head s.tail then none else some (s.head % cap)

  -- the slot to read, or `none` for an empty buffer
  unfoldable pub try_get_tail_ref : LazyRingBuffer A → Option ℕ
  try_get_tail_ref s = if empty s.head s.tail then none else some (s.tail % cap)

module _ {ℓ} {A : Type ℓ} where
  unfoldable pub publish : LazyRingBuffer A → LazyRingBuffer A
  publish s = record s { head = add64 s.head 1 }

  unfoldable pub consume : LazyRingBuffer A → LazyRingBuffer A
  consume s = record s { tail = add64 s.tail 1 }

  -- an assignment through a claimed pointer, and a read through one
  abbrev pub write_slot : ℕ → A → LazyRingBuffer A → LazyRingBuffer A
  write_slot i x s = record s { buffer = put s.buffer i x }

  abbrev pub read_slot : ℕ → LazyRingBuffer A → A
  read_slot i s = s.buffer i
