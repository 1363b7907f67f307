-- ===== src/Handler/Tests.antt =====
-- The gap detector and the reorder buffer at concrete packets.
use hft_architecture.Base.{
  ℕ, ◌*◌, ◌≤◌, ◌≡◌, refl, ◌⊎◌, true, false, none, some, List, [], ◌∷◌, ◌++◌, arith, put,
}
use native.Mathlib.Nat.{dvd_of_mod-eq-zero}
use hft_architecture.Order.{MarketEvent, EventType, buy}
use hft_architecture.Wire.Event.{encode}
use hft_architecture.Ring.Window.{IsCapacity}
use hft_architecture.Ring.Lazy.{LazyRingBuffer}
use hft_architecture.Ring.Lazy.Safety.{contents}
use hft_architecture.Handler.Publisher.{Bytes, published, publish_round, publish_round-publishes}
use hft_architecture.Handler.Gap.{
  has_gap, Within, Arrived, Asked, watch, times_asked, latest, missed_none, asked_once,
}
use hft_architecture.Handler.Reorder.{
  empty, locked, ready, ReorderBuffer, Call, write, consume, wrote, consumed, success, try_write_to,
  try_consume_next, validate_and_claim_slot, try_claim_slot, already_written, likely_slow_reader,
  run, fresh,
}
use hft_architecture.Handler.Reorder.Laws.{
  Sequence, Holds, deliver, try_write_to_lem, arrive, delivery, delivers_in_order, fresh-Holds,
}

abbrev packets : List ℕ
packets = 1 ∷ 5 ∷ 3 ∷ 6 ∷ []

packets-Within : Within packets
packets-Within = (omega arith, (omega arith, (omega arith, (omega arith, tt))))

-- Packet 4 is asked for when packet 5 arrives before it.
missed_none_example : Arrived 4 packets ⊎ Asked 4 (watch 0 packets)
unfolding latest has_gap
missed_none_example =
    missed_none packets 0 4 (omega arith) packets-Within (omega arith) (ground arith)

asked_once_example :
    (times_asked 4 (watch 0 packets) ≤ 1) × (4 ≤ 0 → times_asked 4 (watch 0 packets) ≡ 0)
asked_once_example = asked_once packets 0 4 (omega arith) packets-Within

abbrev item : ℕ → ℕ
item n = 10 * n

abbrev blank : ReorderBuffer ℕ
blank = fresh (λ i. 0) 1

abbrev calls : List Call
calls = write 2 ∷ consume ∷ write 1 ∷ write 2 ∷ write 9 ∷ consume ∷ consume ∷ write 1 ∷ consume ∷ []

run-blank :
    run 4 item blank calls
    ≡ wrote success
      ∷ consumed none
      ∷ wrote success
      ∷ wrote already_written
      ∷ wrote likely_slow_reader
      ∷ consumed (some 10)
      ∷ consumed (some 20)
      ∷ wrote already_written
      ∷ consumed none
      ∷ []
unfolding run try_write_to try_consume_next validate_and_claim_slot try_claim_slot
run-blank = refl

delivers_in_order_example :
    run 4 item blank calls ≡ delivery 4 item (record { next = 1; arrived = λ i. false }) calls
delivers_in_order_example =
    delivers_in_order (omega arith) item calls blank (record { next = 1; arrived = λ i. false })
      (fresh-Holds (omega arith) item (λ i. 0) 1) (omega arith)

abbrev event_of : ℕ → MarketEvent
event_of n = record {
  order = record { order_id = n; price = 300; quantity = 20; side = buy };
  kind = EventType.add;
}

abbrev bytes_of : ℕ → Bytes
bytes_of n = encode (event_of n)

-- Packet 1 was written to a fresh buffer of four slots.
abbrev one_packet : ReorderBuffer Bytes
one_packet = record {
  reader_index = 1;
  status = put (put (λ i. empty) 1 locked) 1 ready;
  data_of = put (λ i. []) 1 (bytes_of 1);
}

abbrev one_arrived : Sequence
one_arrived = record { next = 1; arrived = put (λ i. false) 1 true }

one_packet-Holds : Holds 4 bytes_of one_packet one_arrived
unfolding try_write_to validate_and_claim_slot try_claim_slot arrive
one_packet-Holds =
    let before = fresh-Holds (omega arith) bytes_of (λ i. []) 1 in
    let first : Sequence = record { next = 1; arrived = λ i. false } in
    (try_write_to_lem (omega arith) bytes_of (fresh (λ i. []) 1) first before (omega arith) 1).1

abbrev feed : LazyRingBuffer MarketEvent
feed = record { head = 1; tail = 0; buffer = λ i. event_of 0 }

two_slots-IsCapacity : IsCapacity 2
two_slots-IsCapacity = record {
  nonzero = omega arith;
  small = omega arith;
  divides = dvd_of_mod-eq-zero 2 refl;
}

publish_round-publishes_example :
    let (outcome, s', ring') = publish_round 4 2 one_packet feed in
    (outcome ≡ published)
    × (contents 2 ring' ≡ contents 2 feed ++ (event_of 1 ∷ []))
    × (s'.reader_index ≡ 2)
    × Holds 4 bytes_of s' (deliver bytes_of one_arrived).1
publish_round-publishes_example =
    publish_round-publishes (omega arith) two_slots-IsCapacity feed (omega arith) (omega arith)
      (omega arith) event_of one_packet one_arrived one_packet-Holds (omega arith) refl
      (omega arith)
