-- ===== src/Ring/Queue.antt =====
-- What every ring buffer promises: a first-in first-out queue of at most `cap` items.
use hft_architecture.Base.{
  ℕ, Bool, true, false, Option, none, some, List, [], ◌∷◌, ◌++◌, ◌==◌, if◌then◌else◌, length,
}

pub data Op {ℓ} (A : Type ℓ) : Type ℓ where
  push : A → Op A
  pop : Op A

-- What a call shows its caller: whether it was done, and the item that left the queue.
abbrev pub Reply {ℓ} : Type ℓ → Type ℓ
Reply A = Bool × Option A

module _ {ℓ} {A : Type ℓ} where
  unfoldable pub enqueue : ℕ → List A → A → Bool × List A
  enqueue cap q x = if length q == cap then (false, q) else (true, q ++ (x ∷ []))

  unfoldable pub dequeue : List A → Option A × List A
  dequeue [] = (none, [])
  dequeue (x ∷ q) = (some x, q)

  unfoldable pub run : ℕ → List A → List (Op A) → List (Reply A)
  run cap q [] = []
  run cap q (push x ∷ ops) = let (done, q') = enqueue cap q x in (done, none) ∷ run cap q' ops
  run cap q (pop ∷ ops) = let (out, q') = dequeue q in (true, out) ∷ run cap q' ops
