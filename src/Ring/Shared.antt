-- ===== src/Ring/Shared.antt =====
-- includes/utils/ring-buffer.hpp: SharedRingBuffer. The producer moves `tail`, the consumer `head`.
-- A call is taken whole: its one load of the other endpoint's cursor is where it takes effect, and
-- a stale value of that cursor only makes the buffer look fuller or emptier than it is.
pub mod Laws
pub mod Wait
use hft_architecture.Base.{
  ℕ, ◌%◌, Bool, true, false, Option, none, some, List, [], ◌∷◌, ◌==◌, if◌then◌else◌, Array, put,
  add64, sub64,
}
use hft_architecture.Ring.Queue.{Op, push, pop, Reply}

pub record SharedRingBuffer {ℓ} (A : Type ℓ) : Type ℓ where
  pub head : ℕ
  pub tail : ℕ
  pub buffer : Array A

abbrev pub fresh {ℓ} : {A : Type ℓ} → Array A → SharedRingBuffer A
fresh storage = record { head = 0; tail = 0; buffer = storage }

-- The static `empty` and `full`, over the cursors
abbrev pub empty : ℕ → ℕ → Bool
empty head tail = head == tail

abbrev pub full : ℕ → ℕ → ℕ → Bool
full cap head tail = sub64 tail head == cap

module _ {ℓ} {A : Type ℓ} (cap : ℕ) where
  -- `try_push_internal`, behind both overloads of `try_push`
  unfoldable pub try_push : A → SharedRingBuffer A → Bool × SharedRingBuffer A
  try_push item s =
      if full cap s.head s.tail
      then (false, s)
      else (true, record s { buffer = put s.buffer (s.tail % cap) item; tail = add64 s.tail 1 })

  unfoldable pub try_pop : SharedRingBuffer A → Option A × SharedRingBuffer A
  try_pop s =
      if empty s.head s.tail
      then (none, s)
      else (some (s.buffer (s.head % cap)), record s { head = add64 s.head 1 })

  -- The calls of both endpoints in the order in which they take effect, with what each returns.
  unfoldable pub run : SharedRingBuffer A → List (Op A) → List (Reply A)
  run s [] = []
  run s (push x ∷ ops) = let (done, s') = try_push x s in (done, none) ∷ run s' ops
  run s (pop ∷ ops) = let (out, s') = try_pop s in (true, out) ∷ run s' ops
