-- ===== src/Handler/Client.antt =====
-- RetransmitListener of includes/market-data-handler/tcp-client.hpp and
-- src/market-data-handler/tcp-client.cpp. A failed assertion gives `none`. The socket blocks: its answers
-- are those of the calls to come. `stop p` tells whether a stop was requested when the packet `p` is
-- next, and `storage` is what a new message's buffer holds.
pub mod Delivery
pub mod Recovery
mod Tests
use hft_architecture.Base.{
  ℕ, zero, suc, ◌-◌, Bool, not, ◌&&◌, Option, none, some, List, ◌++◌, ltb, leb, ◌==◌, if◌then◌else◌,
  length, take,
}
use hft_architecture.Wire.Request.{RetransmitRequest, serialize}
use hft_architecture.Wire.Event.{buffer_size}
use hft_architecture.Wire.Message.{
  EncodedMessage, packed_wire_size, max_message_bytes, decode_header_from_buffer, get_payload_ref,
}
use hft_architecture.Net.{
  Sent, write_at, send_range, Received, recv_range, ReceiveStatus, success, connection_closed,
  error,
}
use hft_architecture.Exchange.Connection.{Socket}
use hft_architecture.Exchange.Retransmit.{next_packet, ◌>>=◌}
use hft_architecture.Handler.Reorder.{ReorderBuffer}
use hft_architecture.Handler.Publisher.{
  HandlerError, retransmit_server, retransmit_client_send, retransmit_client_receive, Bytes,
  write_market_data_to_reorder_buffer,
}

abbrev pub unsent_error : Sent → Option HandlerError
unsent_error r = elim r.error [ none ↦ none | some _ ↦ some retransmit_client_send ]

unfoldable pub send_request_to_server : RetransmitRequest → Socket → Option HandlerError × Socket
send_request_to_server request sk =
    let r = send_range sk.answers (serialize request) 0 (length (serialize request)) in
    (unsent_error r, record sk { answers = r.answers; out = sk.out ++ r.out })

-- the socket after a receive
abbrev pub received : Received → Socket → Socket
received r sk = record sk { answers = r.answers; pending = r.pending }

abbrev pub new_message : List ℕ → EncodedMessage
new_message storage = record {
  header = record { sequence_number = 0; payload_length = 0 };
  buffer = storage;
}

-- an error message of the server is told by its number
abbrev pub header_result : ReceiveStatus → EncodedMessage → Option HandlerError × EncodedMessage
header_result (error e) m = (some retransmit_client_receive, m)
header_result connection_closed m = (some retransmit_server, m)
header_result success m =
    let m' = decode_header_from_buffer m in
    (if m'.header.sequence_number == 0 then some retransmit_server else none, m')

unfoldable pub receive_and_decode_header :
    EncodedMessage → Socket → Option HandlerError × EncodedMessage × Socket
receive_and_decode_header m sk =
    let r = recv_range sk.answers sk.pending m.buffer 0 packed_wire_size in
    let (e, m') = header_result r.status (record m { buffer = r.buffer }) in (e, m', received r sk)

abbrev pub payload_error : ReceiveStatus → Option HandlerError
payload_error connection_closed = some retransmit_server
payload_error (error e) = some retransmit_client_receive
payload_error success = none

unfoldable pub receive_payload :
    EncodedMessage → Socket → Option (Option HandlerError × EncodedMessage × Socket)
receive_payload m sk =
    let size = m.header.payload_length in
    if ltb 0 size && leb size max_message_bytes
    then (let r = recv_range sk.answers sk.pending (get_payload_ref m) 0 size in
        some (
          payload_error r.status,
          record m { buffer = write_at packed_wire_size r.buffer m.buffer },
          received r sk,
        ))
    else none

-- the two assertions on a received packet, and the write of its payload
abbrev pub write_packet :
    ℕ
    → RetransmitRequest
    → EncodedMessage
    → ReorderBuffer Bytes
    → Option (Option HandlerError × ReorderBuffer Bytes)
write_packet cap r m b =
    if length (get_payload_ref m) == buffer_size && m.header.sequence_number == r.first_packet
    then some (
        write_market_data_to_reorder_buffer cap (take buffer_size (get_payload_ref m))
          m.header.sequence_number b)
    else none

abbrev pub after_payload :
    ℕ
    → RetransmitRequest
    → ReorderBuffer Bytes
    → Option HandlerError × EncodedMessage × Socket
    → Option (Option HandlerError × ReorderBuffer Bytes × Socket)
after_payload cap r b (some x, m, sk) = some (some x, b, sk)
after_payload cap r b (none, m, sk) = write_packet cap r m b >>= λ (e, b'). some (e, b', sk)

abbrev pub after_header :
    ℕ
    → RetransmitRequest
    → ReorderBuffer Bytes
    → Option HandlerError × EncodedMessage × Socket
    → Option (Option HandlerError × ReorderBuffer Bytes × Socket)
after_header cap r b (some x, m, sk) = some (some x, b, sk)
after_header cap r b (none, m, sk) = receive_payload m sk >>= after_payload cap r b

-- the body of the loop in `handle_request`
unfoldable pub receive_packet :
    ℕ
    → List ℕ
    → RetransmitRequest
    → ReorderBuffer Bytes
    → Socket
    → Option (Option HandlerError × ReorderBuffer Bytes × Socket)
receive_packet cap storage r b sk =
    after_header cap r b (receive_and_decode_header (new_message storage) sk)

-- the error, the client's request, the reorder buffer and the socket after a call
pub record Fetched : Type 0 where
  pub error : Option HandlerError
  pub request : RetransmitRequest
  pub reorder_buffer : ReorderBuffer Bytes
  pub socket : Socket

-- an error ends the function with the request as it stands; else comes the rest
abbrev pub go_on :
    RetransmitRequest
    → (ReorderBuffer Bytes → Socket → Option Fetched)
    → Option HandlerError × ReorderBuffer Bytes × Socket
    → Option Fetched
go_on r rest (none, b, sk) = rest b sk
go_on r rest (some x, b, sk) =
    some (record { error = some x; request = r; reorder_buffer = b; socket = sk })

module _ (cap : ℕ) (storage : List ℕ) (stop : ℕ → Bool) where
  -- the loop, on as much fuel as there are packets
  unfoldable pub fetch_loop : ℕ → RetransmitRequest → ReorderBuffer Bytes → Socket → Option Fetched
  fetch_loop zero r b sk =
      if ltb r.first_packet r.last_packet && not (stop r.first_packet)
      then none
      else some (record { error = none; request = r; reorder_buffer = b; socket = sk })
  fetch_loop (suc fuel) r b sk =
      if ltb r.first_packet r.last_packet && not (stop r.first_packet)
      then receive_packet cap storage r b sk
        >>= go_on r (λ b' sk'. fetch_loop fuel (next_packet r) b' sk')
      else some (record { error = none; request = r; reorder_buffer = b; socket = sk })

  unfoldable pub handle_request : RetransmitRequest → ReorderBuffer Bytes → Socket → Option Fetched
  handle_request r b sk =
      let (e, sk') = send_request_to_server r sk in
      go_on r (fetch_loop (r.last_packet - r.first_packet) r) (e, b, sk')
