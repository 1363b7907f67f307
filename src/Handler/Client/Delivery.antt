-- ===== src/Handler/Client/Delivery.antt =====
-- What the client makes of the bytes that the retransmit server sends.
use hft_architecture.Base.{
  ℕ, ◌+◌, ◌≤◌, ◌<◌, ◌≡◌, refl, sym, ap, ap₂, ◌∙◌, true, false, ◌&&◌, none, some, List, [], ◌++◌,
  append_assoc, append-nil, arith, ltb, leb, ◌==◌, ==_of_ne, length, take, drop, length-append,
  length-take, length-drop, take-append, drop-append, u64_mod,
}
use hft_architecture.Order.{MarketEvent}
use hft_architecture.Wire.Request.{RetransmitRequest}
use hft_architecture.Wire.Event.{encode, buffer_size, length-encode}
use hft_architecture.Wire.Message.{
  EncodedMessage, MessageHeader, IsData, packed_wire_size, max_message_bytes, max_wire_size,
  header_bytes, length-header_bytes, decode-header_bytes, get_payload_ref,
}
use hft_architecture.Net.{write_at, recv_range, ReceiveStatus, success}
use hft_architecture.Net.Willing.{Willing, recv_range-Exactly}
use hft_architecture.Exchange.Connection.{Socket}
use hft_architecture.Exchange.Retransmit.{◌>>=◌}
use hft_architecture.Handler.Reorder.{ReorderBuffer}
use hft_architecture.Handler.Publisher.{Bytes, write_market_data_to_reorder_buffer}
use hft_architecture.Handler.Client.{
  new_message, header_result, receive_and_decode_header, payload_error, receive_payload, received,
  write_packet, receive_packet,
}

-- the header of the packet that the client asks for next
abbrev pub header_for : RetransmitRequest → MarketEvent → MessageHeader
header_for r event = record {
  sequence_number = r.first_packet;
  payload_length = length (encode event);
}

-- A receive took `size` bytes, `more` are still pending, and each answer it used was worth a byte.
pub record Took (size : ℕ) (more : List ℕ) (sk sk' : Socket) : Type 0 where
  pub left : sk'.pending ≡ more
  pub same_out : sk'.out ≡ sk.out
  pub willing : Willing sk'.answers
  pub pays : length sk.answers ≤ length sk'.answers + size

header_result_lem :
    (h : MessageHeader) (rest : List ℕ) (st : ReceiveStatus) (buffer : List ℕ) (old : MessageHeader)
    → IsData h
    → st ≡ success
    → buffer ≡ header_bytes h ++ rest
    → header_result st (record { header = old; buffer = buffer })
      ≡ (none, record { header = h; buffer = header_bytes h ++ rest })
header_result_lem h rest st buffer old d ok written =
    let counted : (h.sequence_number == 0) ≡ false =
      ==_of_ne h.sequence_number 0 (omega (arith, d.numbered)) in
    let decoded = decode-header_bytes h rest old d.sequence_in (omega (arith, d.length_in)) in
    rw (ok, written, decoded, counted) refl

header_lem :
    (h : MessageHeader) (storage more : List ℕ) (sk : Socket)
    → IsData h
    → length storage ≡ max_wire_size
    → sk.pending ≡ header_bytes h ++ more
    → Willing sk.answers
    → packed_wire_size ≤ length sk.answers
    → (sk' : Socket) × (receive_and_decode_header (new_message storage) sk ≡ (
      none,
      record { header = h; buffer = header_bytes h ++ drop packed_wire_size storage },
      sk',
    ))
      × Took packed_wire_size more sk sk'
unfolding receive_and_decode_header
header_lem h storage more sk d whole there w enough =
    let len = length-header_bytes h in
    let upto : 0 + length (header_bytes h) ≡ packed_wire_size = omega (arith, len) in
    let r = recv_range sk.answers sk.pending storage 0 packed_wire_size in
    let x =
      recv_range-Exactly sk.answers (header_bytes h) more sk.pending storage 0 packed_wire_size
        there (omega (arith, len)) (omega arith) (omega (arith, len)) w in
    let result =
      header_result_lem h (drop packed_wire_size storage) r.status r.buffer
        (record { sequence_number = 0; payload_length = 0 }) d x.whole
        (x.wrote ∙ ap (λ n. header_bytes h ++ drop n storage) upto) in
    (
      received r sk,
      ap (λ (e, m). (e, m, received r sk)) result,
      record {
        left = x.left;
        same_out = refl;
        willing = x.willing;
        pays = omega (arith, x.pays, len);
      },
    )

-- a payload that was written behind the header
payload_written :
    (bytes span buffer : List ℕ) (h : MessageHeader)
    → h.payload_length ≡ length bytes
    → packed_wire_size ≤ length buffer
    → get_payload_ref
        (record { header = h; buffer = write_at packed_wire_size (write_at 0 bytes span) buffer })
      ≡ bytes
unfolding get_payload_ref
payload_written bytes span buffer h sized room =
    let unused = drop (0 + length bytes) span in
    let written = bytes ++ unused in
    let rest = drop (packed_wire_size + length written) buffer in
    ap (take h.payload_length) (
      drop-append (take packed_wire_size buffer) (written ++ rest) packed_wire_size
        (length-take packed_wire_size buffer room)
      ∙ append_assoc bytes unused rest)
    ∙ take-append bytes (unused ++ rest) h.payload_length (sym sized)

payload_lem :
    (m : EncodedMessage) (bytes more : List ℕ) (sk : Socket)
    → m.header.payload_length ≡ length bytes
    → 0 < length bytes
    → length bytes ≤ max_message_bytes
    → packed_wire_size + length bytes ≤ length m.buffer
    → sk.pending ≡ bytes ++ more
    → Willing sk.answers
    → length bytes ≤ length sk.answers
    → (buffer : List ℕ) × (sk' : Socket) × (receive_payload m sk
        ≡ some (none, record m { buffer = buffer }, sk'))
      × (get_payload_ref (record m { buffer = buffer }) ≡ bytes)
      × Took (length bytes) more sk sk'
unfolding receive_payload get_payload_ref
payload_lem m bytes more sk sized some_byte fits room there w enough =
    let span = get_payload_ref m in
    let r = recv_range sk.answers sk.pending span 0 m.header.payload_length in
    let x =
      recv_range-Exactly sk.answers bytes more sk.pending span 0 m.header.payload_length there
        (omega arith) (omega (arith, span_length)) enough w in
    let ok : (ltb 0 m.header.payload_length && leb m.header.payload_length max_message_bytes)
        ≡ true =
      ground arith in
    (
      write_at packed_wire_size r.buffer m.buffer,
      received r sk,
      rw ok (
          ap
            (λ e.
              some (
                e,
                record m { buffer = write_at packed_wire_size r.buffer m.buffer },
                received r sk,
              ))
            (ap payload_error x.whole)),
      ap (λ t. get_payload_ref (record m { buffer = write_at packed_wire_size t m.buffer })) x.wrote
          ∙ payload_written bytes span m.buffer m.header sized (omega arith),
      record { left = x.left; same_out = refl; willing = x.willing; pays = x.pays },
    )
  where
    span_length : length (get_payload_ref m) ≡ m.header.payload_length
    span_length =
        length-take m.header.payload_length (drop packed_wire_size m.buffer)
          (omega (arith, length-drop packed_wire_size m.buffer))

write_packet_lem :
    (cap : ℕ) (event : MarketEvent) (r : RetransmitRequest) (m : EncodedMessage)
    (b : ReorderBuffer Bytes)
    → get_payload_ref m ≡ encode event
    → m.header.sequence_number ≡ r.first_packet
    → write_packet cap r m b
      ≡ some (write_market_data_to_reorder_buffer cap (encode event) r.first_packet b)
write_packet_lem cap event r m b same number =
    let len = length-encode event in
    let cut : take buffer_size (encode event) ≡ encode event =
      ap (take buffer_size) (sym (append-nil (encode event)))
      ∙ take-append (encode event) [] buffer_size len in
    let fits : (length (get_payload_ref m) == buffer_size
          && m.header.sequence_number == r.first_packet)
        ≡ true =
      ground (arith, ap length same, len, number) in
    rw fits (
      ap₂ (λ p i. some (write_market_data_to_reorder_buffer cap p i b))
        (ap (take buffer_size) same ∙ cut) number)

-- One packet: its event is written under its number.
pub packet_lem :
    (cap : ℕ) (storage more : List ℕ) (event : MarketEvent) (r : RetransmitRequest)
    (b : ReorderBuffer Bytes) (sk : Socket)
    → length storage ≡ max_wire_size
    → 0 < r.first_packet
    → r.first_packet < u64_mod
    → sk.pending ≡ header_bytes (header_for r event) ++ (encode event ++ more)
    → Willing sk.answers
    → packed_wire_size + buffer_size ≤ length sk.answers
    → (sk' : Socket) × (let (e, b') =
          write_market_data_to_reorder_buffer cap (encode event) r.first_packet b in
        receive_packet cap storage r b sk ≡ some (e, b', sk'))
      × Took (packed_wire_size + buffer_size) more sk sk'
unfolding receive_packet
packet_lem cap storage more event r b sk whole low high there w enough =
    let h = header_for r event in
    let len = length-encode event in
    let (sk₁, head, t₁) =
      header_lem h storage (encode event ++ more) sk
        (record { numbered = low; sequence_in = high; length_in = omega (arith, len) }) whole there
        w (omega arith) in
    let m : EncodedMessage = record {
      header = h;
      buffer = header_bytes h ++ drop packed_wire_size storage;
    } in
    let (buffer, sk₂, got, same, t₂) =
      payload_lem m (encode event) more sk₁ refl (omega (arith, len)) (omega (arith, len))
        (omega (
          arith,
          len,
          length-append (header_bytes h) (drop packed_wire_size storage),
          length-header_bytes h,
          length-drop packed_wire_size storage,
        ))
        t₁.left t₁.willing (omega (arith, t₁.pays, len)) in
    (
      sk₂,
      rw (head, got, ◌>>=◌, write_packet_lem cap event r (record m { buffer = buffer }) b same refl)
          refl,
      record {
        left = t₂.left;
        same_out = t₂.same_out ∙ t₁.same_out;
        willing = t₂.willing;
        pays = omega (arith, t₁.pays, t₂.pays, len);
      },
    )
