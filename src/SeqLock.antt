-- ===== src/SeqLock.antt =====
-- includes/utils/seq-lock.hpp: SeqLock and SeqLockReader, their calls taken one at a time. A loop that
-- waits is given by one round of it: `none` is a round after which it goes on.
mod Tests
use hft_architecture.Base.{
  ℕ, zero, suc, ◌+◌, ◌-◌, ◌^◌, ◌≤◌, ◌<◌, ◌≡◌, Option, none, some, arith, ◌==◌, if◌then◌else◌, add64,
}

pub record SeqLock {ℓ} (A : Type ℓ) : Type ℓ where
  pub generation : ℕ
  pub value : A

-- a reader's `last_generation_seen_`
abbrev pub Tracker : Type 0
Tracker = ℕ

-- A new reader has seen the generation 0.
abbrev pub fresh_reader : Tracker
fresh_reader = 0

abbrev pub locked : ℕ
locked = 2 ^ 64 - 1

-- A lock starts as locked, with whatever its storage holds.
abbrev pub fresh {ℓ} : {A : Type ℓ} → A → SeqLock A
fresh storage = record { generation = locked; value = storage }

module _ {ℓ} {A : Type ℓ} where
  unfoldable pub write : A → SeqLock A → SeqLock A
  write a s = record { generation = add64 s.generation 1; value = a }

  unfoldable pub try_read : SeqLock A → Option A
  try_read s = if s.generation == locked then none else some s.value

  unfoldable pub try_read_and_update : SeqLock A → Tracker → Option A × Tracker
  try_read_and_update s seen =
      if s.generation == locked then (none, seen) else (some s.value, s.generation)

  unfoldable pub wait_read_next_round : SeqLock A → Tracker → Option A × Tracker
  wait_read_next_round s seen =
      if s.generation == seen then (none, seen) else try_read_and_update s seen

  -- `wait_read_and_update` and `wait_read_next` while nothing is written, when a stop is requested at
  -- the question for it after the first `rounds`
  unfoldable pub wait_read_and_update : ℕ → SeqLock A → Tracker → Option A × Tracker
  wait_read_and_update zero s seen = (none, seen)
  wait_read_and_update (suc rounds) s seen =
      let rest = wait_read_and_update rounds s seen in
      if s.generation == locked then rest else try_read_and_update s seen

  unfoldable pub wait_read_next : ℕ → SeqLock A → Tracker → Option A × Tracker
  wait_read_next zero s seen = (none, seen)
  wait_read_next (suc rounds) s seen =
      let rest = wait_read_next rounds s seen in
      if s.generation == seen then rest else wait_read_and_update rounds s seen

  -- A value that is written while a reader waits is read by the reader's next round, and only once:
  -- the round after that finds nothing new until the next write. It takes a generation that the
  -- reader has not passed and that is not about to be the mark of a locked lock.
  pub read_once :
      (a : A) (s : SeqLock A) (seen : Tracker)
      → seen ≤ s.generation
      → s.generation + 1 < locked
      → let (out, seen') = wait_read_next_round (write a s) seen in
        (out ≡ some a)
        × (seen' ≡ s.generation + 1)
        × (wait_read_next_round (write a s) seen' ≡ (none, seen'))
  unfolding wait_read_next_round try_read_and_update write
  read_once a s seen le small = ground arith
