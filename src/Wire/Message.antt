-- ===== src/Wire/Message.antt =====
-- MessageHeader of includes/exchange/protocol.hpp and src/exchange/protocol.cpp, and EncodedMessage of
-- includes/exchange/encoded-message.hpp and src/exchange/encoded-message.cpp. The buffer is a list of
-- `max_wire_size` bytes; what an uninitialised buffer holds is the argument `storage`.
use hft_architecture.Base.{
  ℕ, ◌+◌, ◌^◌, ◌≤◌, ◌<◌, ◌≡◌, refl, sym, ap, ap₂, ◌∙◌, Option, none, some, List, [], ◌++◌,
  append_assoc, arith, leb, ◌==◌, if◌then◌else◌, length, take, drop, length-append, length-take,
  take-append, drop-append, u16_mod, u64_mod,
}
use hft_architecture.Wire.Bytes.{
  to_network, from_network, length-to_network, from_network-to_network,
}

pub record MessageHeader : Type 0 where
  pub sequence_number : ℕ
  pub payload_length : ℕ

-- sizeof(SequenceID) + sizeof(Length)
abbrev pub packed_wire_size : ℕ
packed_wire_size = 8 + 2

abbrev pub max_message_bytes : ℕ
max_message_bytes = 2 ^ 5

abbrev pub max_wire_size : ℕ
max_wire_size = max_message_bytes + packed_wire_size

unfoldable pub wire_size : MessageHeader → ℕ
wire_size h =
    if h.sequence_number == 0 then packed_wire_size else packed_wire_size + h.payload_length

-- `MessageHeader::serialize`: the bytes that it writes to the front of the buffer
unfoldable pub header_bytes : MessageHeader → List ℕ
header_bytes h = to_network 8 h.sequence_number ++ to_network 2 h.payload_length

pub record EncodedMessage : Type 0 where
  pub header : MessageHeader
  pub buffer : List ℕ

-- The constructor; `none` is its failed assertion. It leaves room for the header.
unfoldable pub make : List ℕ → MessageHeader → List ℕ → Option EncodedMessage
make storage h payload =
    if leb (length payload) max_message_bytes
    then some (record {
      header = h;
      buffer =
          take packed_wire_size storage
          ++ (payload ++ drop (packed_wire_size + length payload) storage);
    })
    else none

unfoldable pub payload : EncodedMessage → List ℕ
payload m =
    if m.header.sequence_number == 0
    then []
    else take m.header.payload_length (drop packed_wire_size m.buffer)

unfoldable pub message : EncodedMessage → List ℕ
message m = take (wire_size m.header) m.buffer

-- the new message; the bytes that the source returns are `message` of it
unfoldable pub serialize : EncodedMessage → EncodedMessage
serialize m = record m { buffer = header_bytes m.header ++ drop packed_wire_size m.buffer }

unfoldable pub get_payload_ref : EncodedMessage → List ℕ
get_payload_ref m = take m.header.payload_length (drop packed_wire_size m.buffer)

unfoldable pub decode_header_from_buffer : EncodedMessage → EncodedMessage
decode_header_from_buffer m = record m {
  header = record {
    sequence_number = from_network (take 8 m.buffer);
    payload_length = from_network (take 2 (drop 8 m.buffer));
  };
}

-- A socket call fills the buffer through `get_buffer_ref`, from the front.
unfoldable pub fill_buffer : List ℕ → EncodedMessage → EncodedMessage
fill_buffer bytes m = record m { buffer = bytes ++ drop (length bytes) m.buffer }

pub length-header_bytes : (h : MessageHeader) → length (header_bytes h) ≡ packed_wire_size
unfolding header_bytes
length-header_bytes h = omega (
  arith,
  length-append (to_network 8 h.sequence_number) (to_network 2 h.payload_length),
  length-to_network 8 h.sequence_number,
  length-to_network 2 h.payload_length,
)

-- The fields fit their types, and the number is not the one reserved for errors.
pub record IsData (h : MessageHeader) : Type 0 where
  pub numbered : 0 < h.sequence_number
  pub sequence_in : h.sequence_number < u64_mod
  pub length_in : h.payload_length < u16_mod

-- A buffer that starts with the bytes of a header decodes to that header.
pub decode-header_bytes :
    (h : MessageHeader) (rest : List ℕ) (old : MessageHeader)
    → h.sequence_number < u64_mod
    → h.payload_length < u16_mod
    → decode_header_from_buffer (record { header = old; buffer = header_bytes h ++ rest })
      ≡ record { header = h; buffer = header_bytes h ++ rest }
unfolding decode_header_from_buffer header_bytes
decode-header_bytes h rest old hs hl = ground (
  arith,
  append_assoc sequence size rest,
  take-append sequence (size ++ rest) 8 (length-to_network 8 _),
  drop-append sequence (size ++ rest) 8 (length-to_network 8 _),
  take-append size rest 2 (length-to_network 2 _),
  from_network-to_network 8 h.sequence_number,
  from_network-to_network 2 h.payload_length,
)
  where
    sequence : List ℕ
    sequence = to_network 8 h.sequence_number

    size : List ℕ
    size = to_network 2 h.payload_length

-- The message that the constructor and `serialize` leave, for a payload that fits.
pub serialized : List ℕ → MessageHeader → List ℕ → EncodedMessage
serialized storage h bytes = record {
  header = h;
  buffer = header_bytes h ++ (bytes ++ drop (packed_wire_size + length bytes) storage);
}

module _ (storage bytes : List ℕ) (h : MessageHeader) (room : packed_wire_size ≤ length storage)
    (fits : length bytes ≤ max_message_bytes) where
  -- The constructor succeeds, and `serialize` then fills in the header in front of the payload.
  pub serialize-make :
      (m : EncodedMessage) × (make storage h bytes ≡ some m)
      × (serialize m ≡ serialized storage h bytes)
  unfolding serialize make serialized
  serialize-make = (
    record { header = h; buffer = take packed_wire_size storage ++ rest },
    ground arith,
    ap (λ t. record { header = h; buffer = header_bytes h ++ t })
        (drop-append (take packed_wire_size storage) rest packed_wire_size
          (length-take _ storage room)),
  )
    where
      rest : List ℕ
      rest = bytes ++ drop (packed_wire_size + length bytes) storage

module _ (storage bytes : List ℕ) (h : MessageHeader) (numbered : 0 < h.sequence_number)
    (sized : h.payload_length ≡ length bytes) where
  abbrev unused : List ℕ
  unused = drop (packed_wire_size + length bytes) storage

  -- What goes over the wire for a data message: its header's bytes, then its payload.
  pub message-serialized : message (serialized storage h bytes) ≡ header_bytes h ++ bytes
  unfolding message serialized wire_size
  message-serialized =
      ap₂ take whole (sym (append_assoc (header_bytes h) bytes unused))
      ∙ take-append (header_bytes h ++ bytes) unused (packed_wire_size + length bytes) size
    where
      whole :
          (if h.sequence_number == 0 then packed_wire_size else packed_wire_size + h.payload_length)
          ≡ packed_wire_size + length bytes
      whole = ground arith

      size : length (header_bytes h ++ bytes) ≡ packed_wire_size + length bytes
      size = omega (arith, length-append (header_bytes h) bytes, length-header_bytes h)

-- Whatever a receiver's buffer held, once the bytes of a data message have been read into it, its
-- header decodes to the message's header and its payload is the message's payload.
pub receive-header_bytes :
    (h : MessageHeader) (bytes : List ℕ) (old : EncodedMessage)
    → IsData h
    → h.payload_length ≡ length bytes
    → let m = decode_header_from_buffer (fill_buffer (header_bytes h ++ bytes) old) in
      (m.header ≡ h) × (get_payload_ref m ≡ bytes)
unfolding fill_buffer get_payload_ref
receive-header_bytes h bytes old d sized =
    rw
      (
        append_assoc (header_bytes h) bytes rest,
        decode-header_bytes h (bytes ++ rest) old.header d.sequence_in d.length_in,
      )
      (
        refl,
        ap (take h.payload_length) (
              drop-append (header_bytes h) (bytes ++ rest) packed_wire_size (length-header_bytes h))
            ∙ take-append bytes rest h.payload_length (sym sized),
      )
  where
    rest : List ℕ
    rest = drop (length (header_bytes h ++ bytes)) old.buffer
