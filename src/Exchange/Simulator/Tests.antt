-- ===== src/Exchange/Simulator/Tests.antt =====
-- The exchange takes three events.
use hft_architecture.Base.{ℕ, ◌≡◌, refl, some, List, arith, length, replicate}
use hft_architecture.Order.{MarketEvent, EventType, buy}
use hft_architecture.Wire.Message.{EncodedMessage, max_wire_size}
use hft_architecture.Exchange.Cache.Laws.{Caches}
use hft_architecture.Exchange.Retransmit.{cache_size}
use hft_architecture.Exchange.Simulator.{ExchangeSimulator, fresh_exchange, run}
use hft_architecture.Exchange.Simulator.Packets.{packet, messages, run-keeps}

abbrev event_of : ℕ → MarketEvent
event_of n = record {
  order = record { order_id = n; price = 300; quantity = 20; side = buy };
  kind = EventType.add;
}

abbrev storage : ℕ → List ℕ
storage n = replicate max_wire_size 7

storage-whole : (n : ℕ) → length (storage n) ≡ max_wire_size
storage-whole n = refl

abbrev blank : ℕ → EncodedMessage
blank i = record { header = record { sequence_number = 0; payload_length = 0 }; buffer = storage 0 }

run-keeps_example :
    (s : ExchangeSimulator) × (run storage event_of 1 3 (fresh_exchange blank) ≡ some s)
    × Caches cache_size (packet storage event_of storage-whole) 3 s.retransmit_cache
    × (s.broadcast ≡ messages storage event_of storage-whole 1 3)
    × (s.sequencer.sequencer_counter ≡ 4)
run-keeps_example = run-keeps storage event_of storage-whole 3 blank (omega arith)
