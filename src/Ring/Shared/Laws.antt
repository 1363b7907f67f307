-- ===== src/Ring/Shared/Laws.antt =====
-- SharedRingBuffer against the bounded queue: one call, and any sequence of calls.
use hft_architecture.Base.{
  ℕ, ◌≤◌, ◌<◌, ◌≡◌, refl, sym, inl, inr, true, List, [], ◌∷◌, arith, ◌==◌, ne_of_==, Bool-cases,
  Array, u64_mod, sub64,
}
use hft_architecture.Ring.Queue
use hft_architecture.Ring.Queue.{Op, push, pop}
use hft_architecture.Ring.Window.{IsCapacity, window, length-window, window-push, window-pop}
use hft_architecture.Ring.Shared.{SharedRingBuffer, fresh, try_push, try_pop, run}

pub record IsValid {ℓ} {A : Type ℓ} (cap : ℕ) (s : SharedRingBuffer A) : Type 0 where
  pub head_in : s.head < u64_mod
  pub tail_in : s.tail < u64_mod
  pub size_in : sub64 s.tail s.head ≤ cap

abbrev pub contents {ℓ} : {A : Type ℓ} → ℕ → SharedRingBuffer A → List A
contents cap s = window s.buffer cap s.head (sub64 s.tail s.head)

pub fresh-IsValid {ℓ} : {A : Type ℓ} (cap : ℕ) (storage : Array A) → IsValid cap (fresh storage)
fresh-IsValid cap storage = omega arith

module _ {ℓ} {A : Type ℓ} {cap : ℕ} (cp : IsCapacity cap) where
  pub try_push-IsValid :
      (x : A) (s : SharedRingBuffer A) → IsValid cap s → IsValid cap (try_push cap x s).1
  unfolding try_push
  try_push-IsValid x s v = ground (arith, cp.small)

  pub try_pop-IsValid : (s : SharedRingBuffer A) → IsValid cap s → IsValid cap (try_pop cap s).1
  unfolding try_pop
  try_pop-IsValid s v = ground arith

  -- `try_push` answers as the queue does, and leaves the buffer holding the queue's items.
  pub try_push_refines :
      (x : A) (s : SharedRingBuffer A)
      → IsValid cap s
      → let (done, s') = try_push cap x s in
        (done, contents cap s') ≡ Queue.enqueue cap (contents cap s) x
  unfolding try_push Queue.enqueue
  try_push_refines x s v = ground (
    arith,
    window-push cp s.buffer s.tail s.head x,
    length-window s.buffer cap s.head (sub64 s.tail s.head),
  )

  -- `try_pop` takes the oldest item off the queue.
  pub try_pop_refines :
      (s : SharedRingBuffer A)
      → IsValid cap s
      → let (out, s') = try_pop cap s in (out, contents cap s') ≡ Queue.dequeue (contents cap s)
  unfolding try_pop Queue.dequeue
  try_pop_refines s v = elim (Bool-cases (s.head == s.tail)) [
    | inl e ↦ rw (e, same e)
    | inr e ↦
        rw (
          e,
          window-pop cp s.buffer s.tail s.head v.tail_in v.head_in (λ q. ne_of_== _ _ e (sym q)),
        )
  ]
    where
      same : (s.head == s.tail) ≡ true → sub64 s.tail s.head ≡ 0
      same e = ground arith

  -- For every capacity that the class accepts, no sequence of pushes and pops tells a valid buffer
  -- from the bounded first-in first-out queue of the items it holds: every answer is the same.
  pub run_refines :
      (ops : List (Op A)) (s : SharedRingBuffer A)
      → IsValid cap s
      → run cap s ops ≡ Queue.run cap (contents cap s) ops
  unfolding run Queue.run
  run_refines [] s v = refl
  run_refines (push x ∷ ops) s v =
      rw (run_refines ops _ (try_push-IsValid x s v), ← try_push_refines x s v)
  run_refines (pop ∷ ops) s v = rw (run_refines ops _ (try_pop-IsValid s v), ← try_pop_refines s v)
