-- ===== src/Ring/SingleThread.antt =====
-- includes/utils/single-thread-ring-buffer.hpp: SingleThreadRingBuffer, used by one thread.
pub mod Laws
use hft_architecture.Base.{
  ℕ, ◌%◌, Bool, true, false, not, Option, none, some, ◌==◌, if◌then◌else◌, Array, put, add64, sub64,
}

pub record SingleThreadRingBuffer {ℓ} (A : Type ℓ) : Type ℓ where
  pub buffer : Array A
  pub head : ℕ
  pub tail : ℕ

-- `CAPACITY`
module _ {ℓ} {A : Type ℓ} (cap : ℕ) where
  abbrev pub size : SingleThreadRingBuffer A → ℕ
  size s = sub64 s.head s.tail

  abbrev pub full : SingleThreadRingBuffer A → Bool
  full s = sub64 s.head s.tail == cap

  abbrev pub empty : SingleThreadRingBuffer A → Bool
  empty s = s.head == s.tail

  unfoldable pub available : SingleThreadRingBuffer A → ℕ
  available s = sub64 cap (sub64 s.head s.tail)

  -- Both overloads: an item that is moved in is an item that is copied in.
  unfoldable pub try_push : A → SingleThreadRingBuffer A → Bool × SingleThreadRingBuffer A
  try_push item s =
      if full s
      then (false, s)
      else (true, record s { buffer = put s.buffer (s.head % cap) item; head = add64 s.head 1 })

  -- The pointer that is returned, read at once.
  unfoldable pub try_front : SingleThreadRingBuffer A → Option A
  try_front s = if empty s then none else some (s.buffer (s.tail % cap))

  unfoldable pub pop : SingleThreadRingBuffer A → SingleThreadRingBuffer A
  pop s = if not (empty s) then record s { tail = add64 s.tail 1 } else s

  unfoldable pub clear : SingleThreadRingBuffer A → SingleThreadRingBuffer A
  clear s = record s { tail = s.head }
