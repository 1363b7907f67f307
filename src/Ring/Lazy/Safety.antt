-- ===== src/Ring/Lazy/Safety.antt =====
-- What holds of a LazyRingBuffer in every reachable state of its two threads.
use hft_architecture.Base.{
  ℕ, suc, ◌-◌, ◌%◌, ◌≤◌, ◌<◌, ◌≡◌, refl, ◌≢◌, Option, none, some, List, [], ◌∷◌, ◌++◌, append_assoc,
  arith, Array, put_same, u64_mod, sub64, slot-ne,
}
use hft_architecture.Ring.Window.{
  IsCapacity, window, window-push, window-pop, window-put_outside, cursor_slot,
}
use hft_architecture.Ring.Lazy.{
  LazyRingBuffer, try_get_head_ref, try_get_tail_ref, publish, consume, write_slot,
}
use hft_architecture.Ring.Lazy.Steps.{
  System, init, Step, claim_head, write, release_head, claim_tail, release_tail, Reach, start,
  later,
}

abbrev pub contents {ℓ} : {A : Type ℓ} → ℕ → LazyRingBuffer A → List A
contents cap r = window r.buffer cap r.tail (sub64 r.head r.tail)

-- A producer that holds a claim has room, and its slot is the one at `head`.
abbrev pub HeadClaim : ℕ → ℕ → ℕ → Option ℕ → Type 0
HeadClaim cap head tail none = Unit
HeadClaim cap head tail (some i) = (i ≡ head % cap) × (sub64 head tail < cap)

abbrev pub TailClaim : ℕ → ℕ → ℕ → Option ℕ → Type 0
TailClaim cap head tail none = Unit
TailClaim cap head tail (some i) = (i ≡ tail % cap) × (head ≢ tail)

pub record Inv {ℓ} {A : Type ℓ} (cap : ℕ) (s : System A) : Type ℓ where
  pub head_in : s.ring.head < u64_mod
  pub tail_in : s.ring.tail < u64_mod
  pub size_in : sub64 s.ring.head s.ring.tail ≤ cap
  pub head_claim : HeadClaim cap s.ring.head s.ring.tail s.producer
  pub tail_claim : TailClaim cap s.ring.head s.ring.tail s.consumer
  pub kept : s.sent ≡ s.received ++ contents cap s.ring

module _ {ℓ} {A : Type ℓ} {cap : ℕ} (cp : IsCapacity cap) where
  Inv-init : (storage : Array A) → Inv cap (init cap storage)
  Inv-init storage = record {
    head_in = omega arith;
    tail_in = omega arith;
    size_in = omega arith;
    head_claim = tt;
    tail_claim = tt;
    kept = refl;
  }

  module _ (s : System A) (v : Inv cap s) (i : ℕ) where
    open s.ring use {head, tail, buffer}

    -- The producer's slot lies outside what the consumer can see.
    write-contents :
        (x : A) → s.producer ≡ some i → contents cap (write_slot i x s.ring) ≡ contents cap s.ring
    write-contents x e =
        window-put_outside cp buffer x (sub64 head tail) tail (sub64 head tail) i
          (ground (arith, cursor_slot cp head tail v.head_in v.tail_in)) (omega arith)
          (ground arith)

    publish-contents :
        s.producer ≡ some i → contents cap (publish s.ring) ≡ contents cap s.ring ++ (buffer i ∷ [])
    unfolding publish
    publish-contents e = rw slot (
        rw (put_same buffer (head % cap)) at (
          window-push cp buffer head tail (buffer (head % cap)) v.head_in v.tail_in (ground arith)))
      where
        slot : i ≡ head % cap
        slot = ground arith

    consume-contents :
        s.consumer ≡ some i → contents cap s.ring ≡ buffer i ∷ contents cap (consume s.ring)
    unfolding consume
    consume-contents e = rw slot (window-pop cp buffer head tail v.head_in v.tail_in (ground arith))
      where
        slot : i ≡ tail % cap
        slot = ground arith

  -- Every step of either thread keeps the invariant.
  pub Step-Inv : {s t : System A} → Step cap s t → Inv cap s → Inv cap t
  unfolding try_get_head_ref try_get_tail_ref publish consume
  Step-Inv {s} (claim_head i free e) v = ground arith
  Step-Inv {s} (write i x e) v = ground (arith, write-contents s v i x)
  Step-Inv {s} (release_head i e) v = ground (
    arith,
    cp.small,
    publish-contents s v i,
    append_assoc s.received (contents cap s.ring) (s.ring.buffer i ∷ []),
  )
  Step-Inv {s} (claim_tail i free e) v = ground arith
  Step-Inv {s} (release_tail i e) v = ground (
    arith,
    cp.small,
    consume-contents s v i,
    append_assoc s.received (s.ring.buffer i ∷ []) (contents cap (consume s.ring)),
  )

  pub Reach-Inv : {storage : Array A} {s : System A} → Reach cap storage s → Inv cap s
  Reach-Inv {storage} start = Inv-init storage
  Reach-Inv (later r st) = Step-Inv st (Reach-Inv r)

  -- In every state that a producer and a consumer can reach, in any interleaving, what the consumer
  -- has received, followed by what the buffer holds, is exactly what the producer has published, in
  -- order: no item is lost, repeated, reordered or torn by a write that is under way.
  pub sent_received :
      {storage : Array A} {s : System A}
      → Reach cap storage s
      → s.sent ≡ s.received ++ contents cap s.ring
  sent_received r = (Reach-Inv r).kept

  -- While both endpoints hold a claim they hold different slots, so a write through the producer's
  -- pointer never meets a read through the consumer's.
  pub claims_apart :
      {storage : Array A} {s : System A}
      → Reach cap storage s
      → (i j : ℕ) → s.producer ≡ some i
      → s.consumer ≡ some j
      → i ≢ j
  claims_apart {s = s} r i j p c q =
      let v = Reach-Inv r in
      let size = sub64 s.ring.head s.ring.tail in
      let apart = slot-ne s.ring.tail (size - 1) cp.nonzero (ground arith) in
      let at_head = cursor_slot cp s.ring.head s.ring.tail v.head_in v.tail_in in
      let whole : suc (size - 1) ≡ size = ground arith in apart (rw whole (ground (arith, at_head)))
