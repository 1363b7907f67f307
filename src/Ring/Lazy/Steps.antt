-- ===== src/Ring/Lazy/Steps.antt =====
-- One producer and one consumer thread on a LazyRingBuffer, step by step, in any order. An endpoint
-- reads the other's cursor only when it claims a slot, so a claim is one step; so are each write
-- through the claimed pointer, each read, and the store that publishes or consumes the slot.
use hft_architecture.Base.{ℕ, ◌≡◌, Option, none, some, List, [], ◌∷◌, ◌++◌, Array}
use hft_architecture.Ring.Lazy.{
  LazyRingBuffer, try_get_head_ref, try_get_tail_ref, publish, consume, write_slot, read_slot,
}

-- `claimed i`: between a claim that returned slot `i` and the release of that slot. `last` is what
-- the producer wrote last through the pointer, or what the slot held before.
pub record System {ℓ} (A : Type ℓ) : Type ℓ where
  pub ring : LazyRingBuffer A
  pub producer : Option ℕ
  pub consumer : Option ℕ
  -- what has been published and what has been consumed so far, oldest first
  pub sent : List A
  pub received : List A

module _ {ℓ} {A : Type ℓ} (cap : ℕ) where
  abbrev pub init : Array A → System A
  init storage = record {
    ring = record { head = 0; tail = 0; buffer = storage };
    producer = none;
    consumer = none;
    sent = [];
    received = [];
  }

  pub data Step (s : System A) : System A → Type ℓ where
    claim_head :
        (i : ℕ)
        → s.producer ≡ none
        → try_get_head_ref cap s.ring ≡ some i
        → Step s (record s { producer = some i })
    write :
        (i : ℕ) (x : A) → s.producer ≡ some i → Step s (record s { ring = write_slot i x s.ring })
    release_head :
        (i : ℕ)
        → s.producer ≡ some i
        → Step s (record s {
          ring = publish s.ring;
          producer = none;
          sent = s.sent ++ (read_slot i s.ring ∷ []);
        })
    claim_tail :
        (i : ℕ)
        → s.consumer ≡ none
        → try_get_tail_ref cap s.ring ≡ some i
        → Step s (record s { consumer = some i })
    release_tail :
        (i : ℕ)
        → s.consumer ≡ some i
        → Step s (record s {
          ring = consume s.ring;
          consumer = none;
          received = s.received ++ (read_slot i s.ring ∷ []);
        })

  pub data Reach (storage : Array A) : System A → Type ℓ where
    start : Reach storage (init storage)
    later : {s t : System A} → Reach storage s → Step s t → Reach storage t
