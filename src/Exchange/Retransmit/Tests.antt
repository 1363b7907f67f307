-- ===== src/Exchange/Retransmit/Tests.antt =====
-- A client of the retransmit server in the middle of a packet.
use hft_architecture.Base.{
  ℕ, zero, suc, ◌+◌, ◌≤◌, ◌≡◌, refl, inl, inr, true, some, List, [], ◌∷◌, arith, ◌==◌, Bool-cases,
  length,
}
use hft_architecture.Wire.Request.{RetransmitRequest}
use hft_architecture.Wire.Message.{EncodedMessage, message, wire_size, max_wire_size}
use hft_architecture.Net.{Answer, took, failed, reset}
use hft_architecture.Exchange.Cache.{CircularCache, fresh, fill}
use hft_architecture.Exchange.Cache.Laws.{Caches, fill-Caches, fresh-Caches}
use hft_architecture.Exchange.Connection.{partial_send, Socket}
use hft_architecture.Exchange.Retransmit.{SavedConnection, cache_size, handle_request}
use hft_architecture.Exchange.Retransmit.Streaming.{feed, owed}
use hft_architecture.Exchange.Retransmit.Events.{
  IsServing, AllWilling, HandledAs, handle_request-serves, Answered, handle_events-answers,
}

abbrev zeros : ℕ → List ℕ
zeros zero = []
zeros (suc n) = 0 ∷ zeros n

length-zeros : (n : ℕ) → length (zeros n) ≡ n
length-zeros zero = refl
length-zeros (suc n) = omega (arith, length-zeros n)

-- a packet that an exchange sent
abbrev packet : ℕ → EncodedMessage
packet i = record {
  header = record { sequence_number = i + 1; payload_length = 2 };
  buffer = 0 ∷ (0 ∷ (0 ∷ (0 ∷ (0 ∷ (0 ∷ (0 ∷ (i ∷ (0 ∷ (2 ∷ (65 ∷ (66 ∷ zeros 30)))))))))));
}

short : (i : ℕ) → length (message (packet i)) ≤ max_wire_size
unfolding message wire_size
short i = elim (Bool-cases (i + 1 == 0)) [ inl e ↦ rw e (omega arith) | inr e ↦ rw e (omega arith) ]

abbrev three_packets : CircularCache EncodedMessage
three_packets = fill cache_size packet 0 3 (fresh (λ i. packet 0))

three_packets-Caches : Caches cache_size packet 3 three_packets
three_packets-Caches =
    fill-Caches (omega arith) packet 3 0 (fresh (λ i. packet 0)) (omega arith)
      (fresh-Caches (omega arith) packet (λ i. packet 0))

-- four bytes of the second packet are out
abbrev client : SavedConnection
client = record {
  connection = record {
    buffer = (packet 1).buffer;
    socket_fd = some 8;
    head = 12;
    tail = 4;
    status = partial_send;
  };
  request = some (record { first_packet = 2; last_packet = 4 });
}

abbrev request : RetransmitRequest
request = record { first_packet = 2; last_packet = 4 }

client-IsServing : IsServing client request
client-IsServing = record {
  requested = refl;
  valid = record { ordered = omega arith; fits = omega arith; sized = refl; idle = λ e. cc };
  opened = refl;
  sending = refl;
  numbered = omega arith;
  more = omega arith;
  small = omega arith;
}

abbrev socket : Socket
socket = record { answers = took 5 ∷ (failed reset ∷ []); out = []; pending = [] }

handle_request-serves_example :
    HandledAs packet 3
      (owed packet true request client.connection)
      request
      socket
      2
      (handle_request three_packets [] true client socket 2)
handle_request-serves_example =
    handle_request-serves packet 3 three_packets three_packets-Caches (omega arith) (omega arith)
      short [] client request socket 2 client-IsServing

abbrev steady : ℕ → List (List Answer)
steady zero = []
steady (suc n) = (took 3 ∷ []) ∷ steady n

steady-AllWilling : (n : ℕ) → AllWilling (steady n)
steady-AllWilling zero = tt
steady-AllWilling (suc n) = (omega arith, (omega arith, tt), steady-AllWilling n)

owed_bytes : length (owed packet true request client.connection) ≡ 20
unfolding feed message wire_size
owed_bytes = refl

handle_events-answers_example :
    Answered three_packets []
      (steady 21)
      (owed packet true request client.connection)
      (record { client = client; socket = socket; current_connections = 2 })
handle_events-answers_example =
    handle_events-answers packet 3 three_packets three_packets-Caches (omega arith) (omega arith)
      short [] (steady 21) request
      (record { client = client; socket = socket; current_connections = 2 }) client-IsServing
      (λ p lo hi. (omega arith, omega arith)) (steady-AllWilling 21) (omega (arith, owed_bytes))
