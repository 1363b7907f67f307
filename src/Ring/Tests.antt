-- ===== src/Ring/Tests.antt =====
-- The ring buffers at concrete inputs.
use hft_architecture.Base.{
  ℕ, ◌-◌, ◌^◌, ◌≡◌, refl, ◌≢◌, true, false, none, some, List, [], ◌∷◌, ◌++◌, arith, Array, put,
}
use native.Mathlib.Nat.{dvd_of_mod-eq-zero}
use hft_architecture.Ring.Queue
use hft_architecture.Ring.Queue.{Op, push, pop}
use hft_architecture.Ring.Window.{IsCapacity}
use hft_architecture.Ring.SingleThread
use hft_architecture.Ring.SingleThread.{SingleThreadRingBuffer}
use hft_architecture.Ring.SingleThread.Laws as SingleLaws
use hft_architecture.Ring.Shared
use hft_architecture.Ring.Shared.{SharedRingBuffer}
use hft_architecture.Ring.Shared.Laws as SharedLaws
use hft_architecture.Ring.Lazy.{publish, try_get_head_ref, try_get_tail_ref}
use hft_architecture.Ring.Lazy.Steps.{
  System, init, claim_head, write, release_head, claim_tail, Reach, start, later,
}
use hft_architecture.Ring.Lazy.Safety.{contents, sent_received, claims_apart}

two-IsCapacity : IsCapacity 2
two-IsCapacity = record {
  nonzero = omega arith;
  small = omega arith;
  divides = dvd_of_mod-eq-zero 2 refl;
}

abbrev blank : Array ℕ
blank i = 0

-- Two items, with the write cursor just wrapped round 2 ^ 64.
abbrev wrapped : SharedRingBuffer ℕ
wrapped = record { head = 2 ^ 64 - 1; tail = 1; buffer = put (put blank 0 8) 1 7 }

abbrev script : List (Op ℕ)
script = push 1 ∷ pop ∷ push 2 ∷ pop ∷ pop ∷ pop ∷ []

run-wrapped :
    Shared.run 2 wrapped script
    ≡ (false, none)
      ∷ (true, some 7)
      ∷ (true, none)
      ∷ (true, some 8)
      ∷ (true, some 2)
      ∷ (true, none)
      ∷ []
unfolding Shared.run Shared.try_push Shared.try_pop
run-wrapped = refl

run_refines_example : Shared.run 2 wrapped script ≡ Queue.run 2 (7 ∷ 8 ∷ []) script
run_refines_example = SharedLaws.run_refines two-IsCapacity script wrapped (omega arith)

abbrev single : SingleThreadRingBuffer ℕ
single = record { buffer = put blank 1 5; head = 2; tail = 1 }

try_push_refines_example :
    let (done, s) = SingleThread.try_push 2 9 single in
    (done, SingleLaws.contents 2 s) ≡ Queue.enqueue 2 (5 ∷ []) 9
try_push_refines_example = SingleLaws.try_push_refines two-IsCapacity 9 single (omega arith)

pop_refines_example :
    (SingleThread.try_front 2 single, SingleLaws.contents 2 (SingleThread.pop 2 single))
    ≡ Queue.dequeue (5 ∷ [])
pop_refines_example = SingleLaws.pop_refines two-IsCapacity single (omega arith)

-- One item published, a second being written, while the consumer holds the first.
abbrev racing : System ℕ
racing = record {
  ring = record { head = 1; tail = 0; buffer = put blank 0 4 };
  producer = some 1;
  consumer = some 0;
  sent = 4 ∷ [];
  received = [];
}

racing-Reach : Reach 2 blank racing
unfolding publish try_get_head_ref try_get_tail_ref
racing-Reach =
    let s₀ : System ℕ = init 2 blank in
    let s₁ : System ℕ = record s₀ { producer = some 0 } in
    let s₂ : System ℕ = record s₁ { ring = record s₁.ring { buffer = put blank 0 4 } } in
    let s₃ : System ℕ = record s₂ { ring = publish s₂.ring; producer = none; sent = 4 ∷ [] } in
    let s₄ : System ℕ = record s₃ { producer = some 1 } in
    later {s = s₄}
      (later {s = s₃}
        (later {s = s₂}
          (later {s = s₁} (later {s = s₀} start (claim_head 0 refl refl)) (write 0 4 refl))
          (release_head 0 refl))
        (claim_head 1 refl refl))
      (claim_tail 0 refl refl)

sent_received_example : 4 ∷ [] ≡ [] ++ contents 2 racing.ring
sent_received_example = sent_received two-IsCapacity racing-Reach

claims_apart_example : ◌≢◌ {A = ℕ} 1 0
claims_apart_example = claims_apart two-IsCapacity racing-Reach 1 0 refl refl
