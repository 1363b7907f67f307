-- ===== src/Ring/SingleThread/Laws.antt =====
-- SingleThreadRingBuffer keeps its invariant and behaves as the bounded queue of what it holds.
use hft_architecture.Base.{
  ℕ, ◌≤◌, ◌<◌, ◌≡◌, inl, inr, true, List, arith, ◌==◌, ne_of_==, Bool-cases, length, u64_mod, sub64,
}
use hft_architecture.Ring.Queue
use hft_architecture.Ring.Window.{IsCapacity, window, length-window, window-push, window-pop}
use hft_architecture.Ring.SingleThread.{SingleThreadRingBuffer, size, try_push, try_front, pop}

pub record IsValid {ℓ} {A : Type ℓ} (cap : ℕ) (s : SingleThreadRingBuffer A) : Type 0 where
  pub head_in : s.head < u64_mod
  pub tail_in : s.tail < u64_mod
  pub size_in : sub64 s.head s.tail ≤ cap

abbrev pub contents {ℓ} : {A : Type ℓ} → ℕ → SingleThreadRingBuffer A → List A
contents cap s = window s.buffer cap s.tail (sub64 s.head s.tail)

module _ {ℓ} {A : Type ℓ} {cap : ℕ} (cp : IsCapacity cap) where
  pub try_push-IsValid :
      (x : A) (s : SingleThreadRingBuffer A) → IsValid cap s → IsValid cap (try_push cap x s).1
  unfolding try_push
  try_push-IsValid x s v = ground (arith, cp.small)

  pub pop-IsValid : (s : SingleThreadRingBuffer A) → IsValid cap s → IsValid cap (pop cap s)
  unfolding pop
  pop-IsValid s v = ground arith

  pub length-contents : (s : SingleThreadRingBuffer A) → length (contents cap s) ≡ size cap s
  length-contents s = length-window s.buffer cap s.tail (size cap s)

  -- `try_push` answers as the queue does, and leaves the buffer holding the queue's items.
  pub try_push_refines :
      (x : A) (s : SingleThreadRingBuffer A)
      → IsValid cap s
      → let (done, s') = try_push cap x s in
        (done, contents cap s') ≡ Queue.enqueue cap (contents cap s) x
  unfolding try_push Queue.enqueue
  try_push_refines x s v = ground (
    arith,
    window-push cp s.buffer s.head s.tail x,
    length-window s.buffer cap s.tail (sub64 s.head s.tail),
  )

  -- `try_front` and `pop` together take the oldest item off the queue.
  pub pop_refines :
      (s : SingleThreadRingBuffer A)
      → IsValid cap s
      → (try_front cap s, contents cap (pop cap s)) ≡ Queue.dequeue (contents cap s)
  unfolding try_front pop Queue.dequeue
  pop_refines s v = elim (Bool-cases (s.head == s.tail)) [
    | inl e ↦ rw (e, same e)
    | inr e ↦ rw (e, window-pop cp s.buffer s.head s.tail v.head_in v.tail_in (ne_of_== _ _ e))
  ]
    where
      same : (s.head == s.tail) ≡ true → sub64 s.head s.tail ≡ 0
      same e = ground arith
