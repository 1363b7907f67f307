-- ===== src/Wire/Event.antt =====
-- src/exchange/binary-protocol.cpp and includes/exchange/binary-protocol.hpp: BinaryProtocol.
-- `decode` gives `none` where the source's assertion on the buffer's size fails, and where a byte
-- that is copied into an enumeration names none of its members.
use hft_architecture.Base.{
  ℕ, ◌+◌, ◌<◌, ◌≡◌, refl, ap, ◌∙◌, Option, none, some, List, [], ◌∷◌, ◌++◌, arith, ◌==◌,
  if◌then◌else◌, length, take, drop, length-append, take-append, drop-past, u32_mod, add32,
}
use hft_architecture.Order.{
  Side, buy, sell, EventType, add, cancel, trade, update, MarketEvent, Fits, zero_price,
}
use hft_architecture.Wire.Bytes.{
  to_network, from_network, length-to_network, from_network-to_network,
}

-- sizeof(Type) + sizeof(ID) + sizeof(Price) + sizeof(Quantity) + sizeof(Side)
abbrev pub buffer_size : ℕ
buffer_size = 1 + 8 + 4 + 4 + 1

-- the values of the enumerators
abbrev pub type_byte : EventType → ℕ
type_byte add = 0
type_byte cancel = 1
type_byte trade = 2
type_byte update = 3

abbrev pub side_byte : Side → ℕ
side_byte buy = 0
side_byte sell = 1

abbrev pub type_of_byte : ℕ → Option EventType
type_of_byte b =
    if b == 0
    then some add
    else if b == 1
    then some cancel
    else if b == 2
    then some trade
    else if b == 3
    then some update
    else none

abbrev pub side_of_byte : ℕ → Option Side
side_of_byte b = if b == 0 then some buy else if b == 1 then some sell else none

-- `static_cast<uint32_t>(price)` and its inverse: a price is kept by its distance from INT32_MIN.
abbrev pub price_bits : ℕ → ℕ
price_bits p = add32 p zero_price

abbrev pub byte_at : ℕ → List ℕ → ℕ
byte_at i bs = from_network (take 1 (drop i bs))

abbrev pub field : ℕ → ℕ → List ℕ → ℕ
field offset size bs = from_network (take size (drop offset bs))

-- the fields in the order in which they are copied into the buffer
abbrev pub layout : ℕ → List ℕ → List ℕ → List ℕ → ℕ → List ℕ
layout kind id price quantity side = kind ∷ (id ++ (price ++ (quantity ++ (side ∷ []))))

unfoldable pub encode : MarketEvent → List ℕ
encode event =
    layout (type_byte event.kind) (to_network 8 event.order.order_id)
      (to_network 4 (price_bits event.order.price)) (to_network 4 event.order.quantity)
      (side_byte event.order.side)

abbrev pub decode_fields : List ℕ → EventType → Side → MarketEvent
decode_fields bs kind side = record {
  order = record {
    order_id = field 1 8 bs;
    price = price_bits (field 9 4 bs);
    quantity = field 13 4 bs;
    side = side;
  };
  kind = kind;
}

unfoldable pub decode : List ℕ → Option MarketEvent
decode bs =
    if length bs == buffer_size
    then elim (type_of_byte (byte_at 0 bs)) [
      | none ↦ none
      | some kind ↦ elim (side_of_byte (byte_at 17 bs)) [
        | none ↦ none
        | some side ↦ some (decode_fields bs kind side)
      ]
    ]
    else none

module _ (kind side : ℕ) (id price quantity : List ℕ) (id_size : length id ≡ 8)
    (price_size : length price ≡ 4) (quantity_size : length quantity ≡ 4) where
  abbrev bytes : List ℕ
  bytes = layout kind id price quantity side

  length-layout : length bytes ≡ buffer_size
  length-layout = omega (
    arith,
    length-append id (price ++ (quantity ++ (side ∷ []))),
    length-append price (quantity ++ (side ∷ [])),
    length-append quantity (side ∷ []),
  )

  after_id :
      (k m : ℕ)
      → m ≡ 8 + k
      → drop m (id ++ (price ++ (quantity ++ (side ∷ []))))
        ≡ drop k (price ++ (quantity ++ (side ∷ [])))
  after_id k m e = drop-past id (price ++ (quantity ++ (side ∷ []))) 8 k m id_size e

  after_price :
      (k m : ℕ)
      → m ≡ 4 + k
      → drop m (price ++ (quantity ++ (side ∷ []))) ≡ drop k (quantity ++ (side ∷ []))
  after_price k m e = drop-past price (quantity ++ (side ∷ [])) 4 k m price_size e

  id_field : field 1 8 bytes ≡ from_network id
  id_field = ap from_network (take-append id _ 8 id_size)

  price_field : field 9 4 bytes ≡ from_network price
  price_field = ap from_network (ap (take 4) (after_id 0 8 refl) ∙ take-append price _ 4 price_size)

  quantity_field : field 13 4 bytes ≡ from_network quantity
  quantity_field = ap from_network (
      ap (take 4) (after_id 4 12 refl ∙ after_price 0 4 refl)
      ∙ take-append quantity _ 4 quantity_size)

  side_field : byte_at 17 bytes ≡ side
  unfolding from_network
  side_field =
      ap from_network (
        ap (take 1) (
          after_id 8 16 refl
          ∙ after_price 4 8 refl
          ∙ drop-past quantity (side ∷ []) 4 0 4 quantity_size refl))
      ∙ omega arith

  kind_field : byte_at 0 bytes ≡ kind
  unfolding from_network
  kind_field = omega arith

type_of_byte-type_byte : (k : EventType) → type_of_byte (type_byte k) ≡ some k
type_of_byte-type_byte k = ground arith

side_of_byte-side_byte : (s : Side) → side_of_byte (side_byte s) ≡ some s
side_of_byte-side_byte s = ground arith

price_bits-price_bits : (p : ℕ) → p < u32_mod → price_bits (price_bits p) ≡ p
price_bits-price_bits p h = omega arith

-- Every event is encoded in `BUFFER_SIZE` bytes.
pub length-encode : (e : MarketEvent) → length (encode e) ≡ buffer_size
unfolding encode
length-encode e =
    length-layout (type_byte e.kind) (side_byte e.order.side) (to_network 8 e.order.order_id)
      (to_network 4 (price_bits e.order.price)) (to_network 4 e.order.quantity)
      (length-to_network 8 _) (length-to_network 4 _) (length-to_network 4 _)

-- Decoding what was encoded gives the event back, if its fields fit their types.
pub decode-encode : (e : MarketEvent) → Fits e.order → decode (encode e) ≡ some e
unfolding decode encode
decode-encode e f = ground (
  arith,
  length-layout kind side id price quantity s₁ s₂ s₃,
  kind_field kind side id price quantity s₁ s₂ s₃,
  side_field kind side id price quantity s₁ s₂ s₃,
  id_field kind side id price quantity s₁ s₂ s₃,
  price_field kind side id price quantity s₁ s₂ s₃,
  quantity_field kind side id price quantity s₁ s₂ s₃,
  type_of_byte-type_byte e.kind,
  side_of_byte-side_byte e.order.side,
  price_bits-price_bits e.order.price,
  from_network-to_network 8 e.order.order_id,
  from_network-to_network 4 (price_bits e.order.price),
  from_network-to_network 4 e.order.quantity,
)
  where
    kind : ℕ
    kind = type_byte e.kind

    side : ℕ
    side = side_byte e.order.side

    id : List ℕ
    id = to_network 8 e.order.order_id

    price : List ℕ
    price = to_network 4 (price_bits e.order.price)

    quantity : List ℕ
    quantity = to_network 4 e.order.quantity

    s₁ : length id ≡ 8
    s₁ = length-to_network 8 _

    s₂ : length price ≡ 4
    s₂ = length-to_network 4 _

    s₃ : length quantity ≡ 4
    s₃ = length-to_network 4 _
