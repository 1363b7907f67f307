-- ===== src/Handler/Publisher.antt =====
-- src/market-data-handler/handler.cpp, which writes the packets that arrive, and a round of the loop
-- in includes/market-data-handler/publisher.hpp, which takes the next packet, decodes it and hands
-- the event on. A wait in the loop is given by one try.
use hft_architecture.Base.{
  ℕ, ◌+◌, ◌%◌, ◌<◌, ◌≡◌, refl, ap, ◌∙◌, true, Option, none, some, List, [], ◌∷◌, ◌++◌, arith,
  ==_of_ne, u64_mod, sub64,
}
use hft_architecture.Order.{MarketEvent, Fits}
use hft_architecture.Wire.Event.{encode, decode, decode-encode}
use hft_architecture.Ring.Window.{IsCapacity, window-push}
use hft_architecture.Ring.Lazy.{LazyRingBuffer, try_get_head_ref, publish, write_slot}
use hft_architecture.Ring.Lazy.Safety.{contents}
use hft_architecture.Handler.Reorder.{
  ReorderBuffer, WriteStatus, likely_slow_reader, likely_slow_writer, success, already_written,
  try_write_to, try_consume_next,
}
use hft_architecture.Handler.Reorder.Laws.{Sequence, Holds, deliver, try_consume_next_lem}

-- the errors of the reorder buffer and of the retransmit client, of
-- includes/market-data-handler/handler-errors.hpp
pub data HandlerError : Type 0 where
  retransmit_server retransmit_client_send retransmit_client_receive : HandlerError
  reader_too_far_behind writer_too_far_behind : HandlerError

-- the error that a write status stands for
unfoldable pub error_of : WriteStatus → Option HandlerError
error_of likely_slow_reader = some reader_too_far_behind
error_of likely_slow_writer = some writer_too_far_behind
error_of success = none
error_of already_written = none

-- the serialized event of a packet
abbrev pub Bytes : Type 0
Bytes = List ℕ

unfoldable pub write_market_data_to_reorder_buffer :
    ℕ → Bytes → ℕ → ReorderBuffer Bytes → Option HandlerError × ReorderBuffer Bytes
write_market_data_to_reorder_buffer cap event packet_id s =
    let (answer, s') = try_write_to cap event packet_id s in (error_of answer, s')

-- How a round ends: still waiting for a packet, waiting for room with a packet in hand, at a packet
-- that is no event, or done.
pub data Outcome : Type 0 where
  no_packet undecodable published : Outcome
  no_room : Bytes → Outcome

-- what is done with a packet, with the slot that was claimed and the event that was decoded
abbrev pub hand_over :
    Bytes
    → LazyRingBuffer MarketEvent
    → Option ℕ
    → Option MarketEvent
    → Outcome × LazyRingBuffer MarketEvent
hand_over bytes ring none event = (no_room bytes, ring)
hand_over bytes ring (some slot) none = (undecodable, ring)
hand_over bytes ring (some slot) (some event) = (published, publish (write_slot slot event ring))

unfoldable pub hand_on :
    ℕ → Bytes → LazyRingBuffer MarketEvent → Outcome × LazyRingBuffer MarketEvent
hand_on ring_cap bytes ring = hand_over bytes ring (try_get_head_ref ring_cap ring) (decode bytes)

abbrev pub finish_round :
    ℕ
    → LazyRingBuffer MarketEvent
    → Option Bytes × ReorderBuffer Bytes
    → Outcome × ReorderBuffer Bytes × LazyRingBuffer MarketEvent
finish_round ring_cap ring (none, s) = (no_packet, s, ring)
finish_round ring_cap ring (some bytes, s) =
    let (outcome, ring') = hand_on ring_cap bytes ring in (outcome, s, ring')

unfoldable pub publish_round :
    ℕ
    → ℕ
    → ReorderBuffer Bytes
    → LazyRingBuffer MarketEvent
    → Outcome × ReorderBuffer Bytes × LazyRingBuffer MarketEvent
publish_round cap ring_cap s ring = finish_round ring_cap ring (try_consume_next cap s)

module _ {cap ring_cap : ℕ} (nonzero : 0 < cap) (ring_ok : IsCapacity ring_cap)
    (ring : LazyRingBuffer MarketEvent) (head_in : ring.head < u64_mod)
    (tail_in : ring.tail < u64_mod) (room : sub64 ring.head ring.tail < ring_cap) where
  claimed : try_get_head_ref ring_cap ring ≡ some (ring.head % ring_cap)
  unfolding try_get_head_ref
  claimed = rw (==_of_ne (sub64 ring.head ring.tail) ring_cap (omega arith)) refl

  hand_on_lem :
      (event : MarketEvent)
      → Fits event.order
      → let (outcome, ring') = hand_on ring_cap (encode event) ring in
        (outcome ≡ published) × (contents ring_cap ring' ≡ contents ring_cap ring ++ (event ∷ []))
  unfolding hand_on publish
  hand_on_lem event fits =
      rw (hand_on, claimed, decode-encode event fits)
        (refl, window-push ring_ok ring.buffer ring.head ring.tail event head_in tail_in room)

  delivered :
      (events : ℕ → MarketEvent) (t : Sequence)
      → t.arrived t.next ≡ true
      → (deliver (λ n. encode (events n)) t).0 ≡ some (encode (events t.next))
  unfolding deliver
  delivered events t arrived = rw arrived refl

  moved :
      (events : ℕ → MarketEvent) (t : Sequence)
      → t.arrived t.next ≡ true
      → (deliver (λ n. encode (events n)) t).1.next ≡ t.next + 1
  unfolding deliver
  moved events t arrived = rw arrived refl

  -- When the next packet has arrived and the event buffer has room, a round publishes the event that
  -- was encoded in that packet, behind those published before, and moves on to the packet after it.
  -- The packets in the reorder buffer are the encoded events, whose fields fit their types.
  pub publish_round-publishes :
      (events : ℕ → MarketEvent) (s : ReorderBuffer Bytes) (t : Sequence)
      → Holds cap (λ n. encode (events n)) s t
      → t.next + cap < u64_mod
      → t.arrived t.next ≡ true
      → Fits (events t.next).order
      → let (outcome, s', ring') = publish_round cap ring_cap s ring in
        (outcome ≡ published)
        × (contents ring_cap ring' ≡ contents ring_cap ring ++ (events t.next ∷ []))
        × (s'.reader_index ≡ t.next + 1)
        × Holds cap (λ n. encode (events n)) s' (deliver (λ n. encode (events n)) t).1
  unfolding publish_round
  publish_round-publishes events s t h small arrived fits =
      let (same, holds) = try_consume_next_lem nonzero (λ n. encode (events n)) s t h small in
      let (done, held) = hand_on_lem (events t.next) fits in
      rw
        (
          publish_round,
          ap {B = Option Bytes × ReorderBuffer Bytes} (λ o. (o, (try_consume_next cap s).1))
              (same ∙ delivered events t arrived),
        )
        (done, held, holds.same_next ∙ moved events t arrived, holds)
