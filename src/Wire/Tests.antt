-- ===== src/Wire/Tests.antt =====
-- The wire formats at concrete inputs.
use hft_architecture.Base.{◌-◌, ◌≡◌, refl, none, some, [], ◌∷◌, arith, replicate}
use hft_architecture.Order.{MarketEvent, sell, trade, zero_price}
use hft_architecture.Wire.Bytes.{to_network, from_network}
use hft_architecture.Wire.Event.{encode, decode, decode-encode}
use hft_architecture.Wire.Request.{RetransmitRequest, parse, serialize, parse-serialize}
use hft_architecture.Wire.Message.{
  EncodedMessage, message, fill_buffer, decode_header_from_buffer, get_payload_ref,
}
use hft_architecture.Wire.Sequencer.{Sequencer, generate_message, receive-generate_message}

-- a trade of 600 at the price -1
abbrev sample : MarketEvent
sample = record {
  order = record { order_id = 258; price = zero_price - 1; quantity = 600; side = sell };
  kind = trade;
}

encode-sample :
    encode sample
    ≡ 2 ∷ 0 ∷ 0 ∷ 0 ∷ 0 ∷ 0 ∷ 0 ∷ 1 ∷ 2 ∷ 255 ∷ 255 ∷ 255 ∷ 255 ∷ 0 ∷ 0 ∷ 2 ∷ 88 ∷ 1 ∷ []
unfolding encode to_network
encode-sample = refl

decode-unknown : decode (replicate 18 9) ≡ none
unfolding decode from_network
decode-unknown = refl

decode-encode_example : decode (encode sample) ≡ some sample
decode-encode_example = decode-encode sample (omega arith)

abbrev gap : RetransmitRequest
gap = record { first_packet = 4; last_packet = 9 }

parse-serialize_example : parse (serialize gap) ≡ some gap
parse-serialize_example = parse-serialize gap (omega arith) (omega arith)

abbrev sequencer : Sequencer
sequencer = record { sequencer_counter = 7 }

abbrev dirty : EncodedMessage
dirty = record {
  header = record { sequence_number = 3; payload_length = 1 };
  buffer = replicate 42 170;
}

receive-generate_message_example :
    (m : EncodedMessage) × (generate_message (replicate 42 85) sequencer sample
      ≡ (some m, record { sequencer_counter = 8 }))
    × (let r = decode_header_from_buffer (fill_buffer (message m) dirty) in
        (r.header.sequence_number ≡ 7) × (decode (get_payload_ref r) ≡ some sample))
receive-generate_message_example =
    receive-generate_message (replicate 42 85) sequencer sample (omega arith) dirty (omega arith)
      (omega arith) (omega arith)
