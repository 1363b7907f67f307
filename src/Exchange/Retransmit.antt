-- ===== src/Exchange/Retransmit.antt =====
-- RetransmitServer of includes/exchange/tcp-retransmit.hpp and src/exchange/tcp-retransmit.cpp, for one
-- client: what the server does when the client's socket has an event. A failed assertion gives `none`.
-- Whether the event queue takes a registration is an argument.
pub mod Events
pub mod Loop
pub mod Streaming
mod Tests
use hft_architecture.Base.{
  ℕ, zero, suc, ◌-◌, ◌%◌, ◌^◌, Bool, true, false, not, Option, none, some, List, [], ◌∷◌, ltb,
  if◌then◌else◌, u32_mod, add64, sub64,
}
use hft_architecture.Wire.Request.{RetransmitRequest, packed_size, parse}
use hft_architecture.Wire.Message.{EncodedMessage, make, message, serialize}
use hft_architecture.Wire.Sequencer.{first_sequence_id}
use hft_architecture.Net.{Answer}
use hft_architecture.Exchange.Cache.{
  Expected, CircularCache, CacheError, data_too_old, data_does_not_exist, concurrent_write, item,
  unexpected, try_get_item,
}
use hft_architecture.Exchange.Connection.{
  Error, packet_too_old, invalid_packet, packet_unavailable, client_connection,
  client_connection_closed, would_block, receive_from_client, send_to_client, register_event,
  server_fatal, error_code, Status, partial_send, partial_receive, saved_message, clear, Connection,
  Socket, bytes, refused, cleared, close, is_open, save, send, receive,
}

abbrev pub cache_size : ℕ
cache_size = 2 ^ 15

abbrev pub max_total_connections : ℕ
max_total_connections = 25

pub record SavedConnection : Type 0 where
  pub connection : Connection
  pub request : Option RetransmitRequest

-- An operation on a client: its error, if any, the client and the socket after it.
abbrev pub Result : Type 0
Result = Option (Option Error × SavedConnection × Socket)

infixl 5 ◌>>=◌
abbrev pub ◌>>=◌ : {A B : Type 0} → Option A → (A → Option B) → Option B
none >>= f = none
some a >>= f = f a

abbrev pub cache_error : CacheError → Error
cache_error data_too_old = packet_too_old
cache_error data_does_not_exist = invalid_packet
cache_error concurrent_write = packet_unavailable

abbrev pub next_packet : RetransmitRequest → RetransmitRequest
next_packet r = record r { first_packet = add64 r.first_packet 1 }

-- where the cache keeps a packet: the index is cut to the 32 bits of the cache's index
abbrev pub cache_index : ℕ → ℕ
cache_index p = sub64 p first_sequence_id % u32_mod

abbrev pub is_partial : Status → Bool
is_partial clear = false
is_partial saved_message = false
is_partial partial_send = true
is_partial partial_receive = false

-- one packet, as the cache answered for it: its `message` is saved and sent
abbrev pub send_item :
    Expected EncodedMessage → Connection → Socket → Option (Option Error × Connection × Socket)
send_item (unexpected e) c sk = some (some (cache_error e), c, sk)
send_item (item m) c sk = save (message m) c >>= λ c₁. send c₁ sk

-- an error ends the function with the request as it stands; else comes the rest
abbrev pub go_on :
    RetransmitRequest → (Connection → Socket → Result) → Option Error × Connection × Socket → Result
go_on r rest (none, c, sk) = rest c sk
go_on r rest (some x, c, sk) = some (some x, record { connection = c; request = some r }, sk)

module _ (cache : CircularCache EncodedMessage) where
  unfoldable pub stream_packet :
      ℕ → Connection → Socket → Option (Option Error × Connection × Socket)
  stream_packet p c sk = send_item (try_get_item cache_size (cache_index p) cache) c sk

  -- the `for` loop, on as much fuel as there are packets, and the end of the function
  unfoldable pub stream_loop : ℕ → RetransmitRequest → Connection → Socket → Result
  stream_loop zero r c sk =
      if ltb r.first_packet r.last_packet
      then none
      else some (none, record { connection = c; request = none }, sk)
  stream_loop (suc fuel) r c sk =
      if ltb r.first_packet r.last_packet
      then stream_packet r.first_packet c sk
        >>= go_on r (λ c' sk'. stream_loop fuel (next_packet r) c' sk')
      else some (none, record { connection = c; request = none }, sk)

  abbrev pub stream_from : RetransmitRequest → Connection → Socket → Result
  stream_from r = stream_loop (r.last_packet - r.first_packet) r

  -- `stream_packets`, of a client with the request `r`
  unfoldable pub stream_request : RetransmitRequest → Connection → Socket → Result
  stream_request r c sk =
      if not (is_open c)
      then none
      else if ltb r.first_packet first_sequence_id
      then some (some invalid_packet, record { connection = c; request = some r }, sk)
      else if is_partial c.status
      then send c sk >>= go_on r (stream_from (next_packet r))
      else stream_from r c sk

  unfoldable pub stream_packets : SavedConnection → Socket → Result
  stream_packets client sk = elim client.request [
    | none ↦ none
    | some r ↦ stream_request r client.connection sk
  ]

unfoldable pub receive_request : SavedConnection → Socket → Result
receive_request client sk = receive packed_size client.connection sk >>= λ (d, c, sk'). elim d [
  | refused x ↦ some (some x, record client { connection = c }, sk')
  | bytes wire ↦ parse wire >>= λ r. some (none, record { connection = c; request = some r }, sk')
]

-- a client that was served, and how many connections the server has
pub record Served : Type 0 where
  pub client : SavedConnection
  pub socket : Socket
  pub current_connections : ℕ

unfoldable pub close_client : SavedConnection → ℕ → SavedConnection × ℕ
unfolding close
close_client client connections =
    (record { connection = close client.connection; request = none }, sub64 connections 1)

-- The error message has no payload; its buffer holds what `storage` held.
unfoldable pub notify_and_close : List ℕ → Error → SavedConnection → Socket → ℕ → Option Served
unfolding cleared
notify_and_close storage e client sk connections =
    make storage (record { sequence_number = 0; payload_length = error_code e }) [] >>= λ m.
    save (message (serialize m)) (cleared client.connection) >>= λ c. send c sk >>= λ (_, c', sk').
    let (client', connections') = close_client (record client { connection = c' }) connections in
    some (record { client = client'; socket = sk'; current_connections = connections' })

abbrev pub keep : Error → SavedConnection → Socket → ℕ → Option (Option Error × Served)
keep e client sk connections =
    some (some e, record { client = client; socket = sk; current_connections = connections })

abbrev pub fine : SavedConnection → Socket → ℕ → Option (Option Error × Served)
fine client sk connections =
    some (none, record { client = client; socket = sk; current_connections = connections })

abbrev pub shut : Error → SavedConnection → Socket → ℕ → Option (Option Error × Served)
shut e client sk connections =
    let (client', connections') = close_client client connections in keep e client' sk connections'

-- the `switch` on the error of `stream_packets`; the other errors are unreachable assertions
unfoldable pub after_stream : List ℕ → Bool → Result → ℕ → Option (Option Error × Served)
after_stream storage registers none n = none
after_stream storage registers (some (none, client, sk)) n = fine client sk n
after_stream storage registers (some (some would_block, client, sk)) n =
    if registers
    then fine client sk n
    else notify_and_close storage client_connection client sk n >>= λ s.
        some (some register_event, s)
after_stream storage registers (some (some client_connection_closed, client, sk)) n =
    shut client_connection_closed client sk n
after_stream storage registers (some (some packet_too_old, client, sk)) n =
    shut packet_too_old client sk n
after_stream storage registers (some (some invalid_packet, client, sk)) n =
    shut invalid_packet client sk n
after_stream storage registers (some (some packet_unavailable, client, sk)) n =
    shut packet_unavailable client sk n
after_stream storage registers (some (some send_to_client, client, sk)) n =
    shut send_to_client client sk n
after_stream storage registers (some (some client_connection, client, sk)) n = none
after_stream storage registers (some (some server_fatal, client, sk)) n = none
after_stream storage registers (some (some receive_from_client, client, sk)) n = none
after_stream storage registers (some (some register_event, client, sk)) n = none

-- the `switch` on the error of `receive_request`, before the request is streamed
unfoldable pub after_request :
    CircularCache EncodedMessage → List ℕ → Bool → Result → ℕ → Option (Option Error × Served)
after_request cache storage registers none n = none
after_request cache storage registers (some (none, client, sk)) n =
    after_stream storage registers (stream_packets cache client sk) n
after_request cache storage registers (some (some would_block, client, sk)) n = fine client sk n
after_request cache storage registers (some (some client_connection_closed, client, sk)) n =
    shut client_connection_closed client sk n
after_request cache storage registers (some (some receive_from_client, client, sk)) n =
    notify_and_close storage client_connection client sk n >>= λ s.
    some (some receive_from_client, s)
after_request cache storage registers (some (some packet_too_old, client, sk)) n = none
after_request cache storage registers (some (some invalid_packet, client, sk)) n = none
after_request cache storage registers (some (some packet_unavailable, client, sk)) n = none
after_request cache storage registers (some (some send_to_client, client, sk)) n = none
after_request cache storage registers (some (some client_connection, client, sk)) n = none
after_request cache storage registers (some (some server_fatal, client, sk)) n = none
after_request cache storage registers (some (some register_event, client, sk)) n = none

abbrev pub handle_status :
    CircularCache EncodedMessage
    → List ℕ
    → Bool
    → Status
    → SavedConnection
    → Socket
    → ℕ
    → Option (Option Error × Served)
handle_status cache storage registers clear client sk n =
    after_request cache storage registers (receive_request client sk) n
handle_status cache storage registers partial_receive client sk n =
    after_request cache storage registers (receive_request client sk) n
handle_status cache storage registers saved_message client sk n =
    after_stream storage registers (stream_packets cache client sk) n
handle_status cache storage registers partial_send client sk n =
    after_stream storage registers (stream_packets cache client sk) n

-- `handle_request`: its error, and the client, its socket and the number of connections after it
unfoldable pub handle_request :
    CircularCache EncodedMessage
    → List ℕ
    → Bool
    → SavedConnection
    → Socket
    → ℕ
    → Option (Option Error × Served)
handle_request cache storage registers client sk n =
    handle_status cache storage registers client.connection.status client sk n

-- The events of one client in the loop of `run_event_loop`, each with what the socket answers until the
-- next one; the registrations succeed.
unfoldable pub handle_events :
    CircularCache EncodedMessage → List ℕ → List (List Answer) → Served → Option Served
handle_events cache storage [] s = some s
handle_events cache storage (answers ∷ more) s =
    handle_request cache storage true s.client (record s.socket { answers = answers })
      s.current_connections
    >>= λ (_, s'). handle_events cache storage more s'
