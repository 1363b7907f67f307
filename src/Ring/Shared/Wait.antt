-- ===== src/Ring/Shared/Wait.antt =====
-- The spinning calls of SharedRingBuffer that watch a stop token. What the rest of the program does
-- between two tries is the environment's: each round says whether a stop is requested when the
-- token is read, and how the other endpoint has changed the buffer before the next try.
use hft_architecture.Base.{ℕ, Bool, true, false, Option, none, some, List, [], ◌∷◌, if◌then◌else◌}
use hft_architecture.Ring.Shared.{SharedRingBuffer, try_push, try_pop}

pub record Round {ℓ} (A : Type ℓ) : Type ℓ where
  pub stop_requested : Bool
  pub others : SharedRingBuffer A → SharedRingBuffer A

-- `spinning`: the rounds that were observed are over and the call has not returned.
pub data Waiting {ℓ} (R : Type ℓ) : Type ℓ where
  returned : R → Waiting R
  spinning : Waiting R

module _ {ℓ} {A : Type ℓ} (cap : ℕ) where
  -- `wait_pop(stop_token)`
  unfoldable pub wait_pop :
      List (Round A) → SharedRingBuffer A → Waiting (Option A) × SharedRingBuffer A
  wait_pop [] s = (spinning, s)
  wait_pop (r ∷ rounds) s =
      let again = wait_pop rounds (r.others s) in
      if r.stop_requested
      then (returned none, s)
      else let (out, s') = try_pop cap s in
        elim out [ some value ↦ (returned (some value), s') | none ↦ again ]

  -- `wait_push(item, stop_token)`, which tries once before it reads the token
  unfoldable pub wait_push :
      List (Round A) → A → SharedRingBuffer A → Waiting Bool × SharedRingBuffer A
  wait_push [] item s = (spinning, s)
  wait_push (r ∷ rounds) item s =
      let again = wait_push rounds item (r.others s) in
      let (done, s') = try_push cap item s in
      if done then (returned true, s') else if r.stop_requested then (returned false, s') else again
