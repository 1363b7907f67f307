-- ===== src/Wire/Request.antt =====
-- RetransmitRequest of includes/exchange/tcp-retransmit.hpp: `serialize` and `parse` of
-- src/exchange/tcp-retransmit.cpp. `parse` gives `none` where its assertion on the size fails.
use hft_architecture.Base.{
  ℕ, ◌+◌, ◌<◌, ◌≡◌, sym, ap, ◌∙◌, Option, none, some, List, [], ◌++◌, append-nil, arith, ◌==◌,
  if◌then◌else◌, length, take, drop, length-append, take-append, drop-append, u64_mod,
}
use hft_architecture.Wire.Bytes.{
  to_network, from_network, length-to_network, from_network-to_network,
}

pub record RetransmitRequest : Type 0 where
  pub first_packet : ℕ
  pub last_packet : ℕ

abbrev pub packed_size : ℕ
packed_size = 8 + 8

unfoldable pub serialize : RetransmitRequest → List ℕ
serialize r = to_network 8 r.first_packet ++ to_network 8 r.last_packet

unfoldable pub parse : List ℕ → Option RetransmitRequest
parse wire =
    if length wire == packed_size
    then some (record {
      first_packet = from_network (take 8 wire);
      last_packet = from_network (take 8 (drop 8 wire));
    })
    else none

pub length-serialize : (r : RetransmitRequest) → length (serialize r) ≡ packed_size
unfolding serialize
length-serialize r = omega (
  arith,
  length-append (to_network 8 r.first_packet) (to_network 8 r.last_packet),
  length-to_network 8 r.first_packet,
  length-to_network 8 r.last_packet,
)

-- The server parses the request that the client serialized, for all 64-bit packet numbers.
pub parse-serialize :
    (r : RetransmitRequest)
    → r.first_packet < u64_mod
    → r.last_packet < u64_mod
    → parse (serialize r) ≡ some r
unfolding parse serialize
parse-serialize r hf hl = ground (
  arith,
  length-serialize r,
  take-append first last 8 (length-to_network 8 _),
  drop-append first last 8 (length-to_network 8 _),
  ap (take 8) (sym (append-nil last)) ∙ take-append last [] 8 (length-to_network 8 _),
  from_network-to_network 8 r.first_packet,
  from_network-to_network 8 r.last_packet,
)
  where
    first : List ℕ
    first = to_network 8 r.first_packet

    last : List ℕ
    last = to_network 8 r.last_packet
