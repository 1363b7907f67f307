-- ===== src/Handler/Client/Tests.antt =====
-- The retransmit client asks for two packets.
use hft_architecture.Base.{
  ℕ, zero, suc, ◌≤◌, ◌<◌, ◌≡◌, refl, true, false, none, some, List, [], ◌∷◌, ◌++◌, arith, length,
  replicate,
}
use hft_architecture.Order.{MarketEvent, EventType, buy}
use hft_architecture.Wire.Request.{RetransmitRequest, serialize}
use hft_architecture.Wire.Event.{encode}
use hft_architecture.Wire.Message.{EncodedMessage, max_wire_size}
use hft_architecture.Net.{Answer, took}
use hft_architecture.Net.Willing.{Willing}
use hft_architecture.Exchange.Connection.{Socket}
use hft_architecture.Exchange.Retransmit.Streaming.{feed}
use hft_architecture.Exchange.Simulator.Packets.{packet, packet-carries}
use hft_architecture.Handler.Reorder.{ReorderBuffer, fresh}
use hft_architecture.Handler.Reorder.Laws.{Sequence, Holds, fresh-Holds}
use hft_architecture.Handler.Publisher.{Bytes}
use hft_architecture.Handler.Client.{Fetched, handle_request}
use hft_architecture.Handler.Client.Recovery.{handle_request-recovers}

abbrev event_of : ℕ → MarketEvent
event_of n = record {
  order = record { order_id = n; price = 300; quantity = 20; side = buy };
  kind = EventType.add;
}

abbrev storage : List ℕ
storage = replicate max_wire_size 7

storage-whole : (n : ℕ) → length storage ≡ max_wire_size
storage-whole n = refl

-- the packets that the exchange keeps of these events
abbrev sent : ℕ → EncodedMessage
sent = packet (λ n. storage) event_of storage-whole

abbrev answers : ℕ → List Answer
answers n = replicate n (took 50)

answers-Willing : (n : ℕ) → Willing (answers n)
answers-Willing zero = tt
answers-Willing (suc n) = (omega arith, answers-Willing n)

abbrev socket : Socket
socket = record { answers = answers 80; out = []; pending = feed sent 1 2 ++ (9 ∷ []) }

abbrev request : RetransmitRequest
request = record { first_packet = 1; last_packet = 3 }

abbrev reorder_buffer : ReorderBuffer Bytes
reorder_buffer = fresh (λ i. []) 1

abbrev none_arrived : Sequence
none_arrived = record { next = 1; arrived = λ i. false }

handle_request-recovers_example :
    (f : Fetched) × (t' : Sequence) × (handle_request 4 storage
        (λ p. false)
        request
        reorder_buffer
        socket
      ≡ some f)
    × (f.error ≡ none)
    × (f.socket.out ≡ serialize request)
    × (f.socket.pending ≡ 9 ∷ [])
    × Holds 4 (λ n. encode (event_of n)) f.reorder_buffer t'
    × (t'.next ≡ 1)
    × ((q : ℕ) → false ≡ true → t'.arrived q ≡ true)
    × ((q : ℕ) → 1 ≤ q → q < 3 → 1 ≤ q → t'.arrived q ≡ true)
handle_request-recovers_example =
    handle_request-recovers 4 event_of sent (packet-carries (λ n. storage) event_of storage-whole)
      storage refl (omega arith) request reorder_buffer none_arrived socket (9 ∷ []) (omega arith)
      (omega arith) (omega arith) (fresh-Holds (omega arith) (λ n. encode (event_of n)) (λ i. []) 1)
      (omega arith) (omega arith) refl (answers-Willing 80) (omega arith)
