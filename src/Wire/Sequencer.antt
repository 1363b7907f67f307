-- ===== src/Wire/Sequencer.antt =====
-- includes/exchange/sequencer.hpp: Sequencer, with BinaryProtocol as its encoder.
use hft_architecture.Base.{
  ℕ, ◌≤◌, ◌<◌, ◌≡◌, refl, ap, Option, none, some, List, arith, length, u64_mod, add64,
}
use hft_architecture.Order.{MarketEvent, Fits}
use hft_architecture.Wire.Event.{encode, decode, buffer_size, length-encode, decode-encode}
use hft_architecture.Wire.Message.{
  MessageHeader, EncodedMessage, make, serialize, message, fill_buffer, decode_header_from_buffer,
  get_payload_ref, packed_wire_size, serialized, serialize-make, message-serialized,
  receive-header_bytes,
}

pub record Sequencer : Type 0 where
  pub sequencer_counter : ℕ

abbrev pub first_sequence_id : ℕ
first_sequence_id = 1

abbrev pub start : Sequencer
start = record { sequencer_counter = first_sequence_id }

abbrev pub header_of : Sequencer → MarketEvent → MessageHeader
header_of s event = record {
  sequence_number = s.sequencer_counter;
  payload_length = length (encode event);
}

-- `storage` is what the new message's buffer holds before anything is copied into it.
unfoldable pub generate_message :
    List ℕ → Sequencer → MarketEvent → Option EncodedMessage × Sequencer
generate_message storage s event = (
  elim (make storage (header_of s event) (encode event)) [
    | none ↦ none
    | some m ↦ some (serialize m)
  ],
  record { sequencer_counter = add64 s.sequencer_counter 1 },
)

module _ (storage : List ℕ) (s : Sequencer) (event : MarketEvent)
    (room : packed_wire_size ≤ length storage) where
  sized : length (encode event) ≡ buffer_size
  sized = length-encode event

  pub generate_message_lem : generate_message storage s event ≡ (
    some (serialized storage (header_of s event) (encode event)),
    record { sequencer_counter = add64 s.sequencer_counter 1 },
  )
  unfolding generate_message
  generate_message_lem =
      let (m, made, same) =
        serialize-make storage (encode event) (header_of s event) room (omega (arith, sized)) in
      rw (made, same)

  -- From the sequencer to the reader. The sequencer, if its counter is neither 0 nor past 64 bits and
  -- the event's fields fit their types, builds a message and moves to the next number; and a receiver
  -- that copies the bytes of that message into any buffer decodes the same sequence number from the
  -- header, and the same event from the payload.
  pub receive-generate_message :
      (old : EncodedMessage)
      → 0 < s.sequencer_counter
      → s.sequencer_counter < u64_mod
      → Fits event.order
      → (m : EncodedMessage) × (generate_message storage s event
          ≡ (some m, record { sequencer_counter = add64 s.sequencer_counter 1 }))
        × (let r = decode_header_from_buffer (fill_buffer (message m) old) in
            (r.header.sequence_number ≡ s.sequencer_counter)
            × (decode (get_payload_ref r) ≡ some event))
  receive-generate_message old low high fits =
      let h = header_of s event in
      let sent = message-serialized storage (encode event) h low refl in
      let back =
        receive-header_bytes h (encode event) old
          (record { numbered = low; sequence_in = high; length_in = omega (arith, sized) }) refl in
      (
        serialized storage h (encode event),
        generate_message_lem,
        rw sent (ap (λ t. t.sequence_number) back.0, rw back.1 (decode-encode event fits)),
      )
