-- ===== src/Exchange/Simulator/Packets.antt =====
-- What the exchange keeps and broadcasts of its events.
use hft_architecture.Base.{
  ℕ, zero, suc, ◌+◌, ◌-◌, ◌≤◌, ◌<◌, ◌≡◌, refl, sym, ap, subst, ◌∙◌, some, List, [], ◌∷◌, ◌++◌,
  append_assoc, append-nil, arith, length, length-append,
}
use hft_architecture.Order.{MarketEvent}
use hft_architecture.Wire.Event.{encode, length-encode}
use hft_architecture.Wire.Message.{
  EncodedMessage, MessageHeader, message, header_bytes, length-header_bytes, serialized,
  message-serialized, packed_wire_size, max_wire_size,
}
use hft_architecture.Wire.Sequencer.{Sequencer, generate_message, generate_message_lem}
use hft_architecture.Exchange.Cache.{put_item, is_locked}
use hft_architecture.Exchange.Cache.Laws.{Caches, fresh-Caches, put_item-Caches}
use hft_architecture.Exchange.Retransmit.{cache_size, ◌>>=◌}
use hft_architecture.Exchange.Retransmit.Streaming.{bytes_of}
use hft_architecture.Exchange.Simulator.{
  ExchangeSimulator, fresh_exchange, on_market_event, run, send_out,
}

module _ (storage : ℕ → List ℕ) (events : ℕ → MarketEvent)
    (whole : (n : ℕ) → length (storage n) ≡ max_wire_size) where
  -- the header and the message of the event `n`
  abbrev pub header_at : ℕ → MessageHeader
  header_at n = record { sequence_number = n; payload_length = length (encode (events n)) }

  abbrev pub message_at : ℕ → EncodedMessage
  message_at n = serialized (storage n) (header_at n) (encode (events n))

  -- the messages as the cache counts them, from 0 on
  abbrev pub packet : ℕ → EncodedMessage
  packet i = message_at (i + 1)

  -- the exchange when `n` events were handled
  pub record Handled (n : ℕ) (s : ExchangeSimulator) : Type 0 where
    pub counted : s.sequencer.sequencer_counter ≡ n + 1
    pub cached : Caches cache_size packet n s.retransmit_cache

  on_market_event-Handled :
      (n : ℕ) (s : ExchangeSimulator)
      → n < is_locked
      → Handled n s
      → (s' : ExchangeSimulator) × (on_market_event storage events (events (n + 1)) s ≡ some s')
        × Handled (n + 1) s'
        × (s'.broadcast ≡ s.broadcast ++ (message (message_at (n + 1)) ∷ []))
  unfolding on_market_event
  on_market_event-Handled n s small h =
      let event = events (n + 1) in
      let counter : Sequencer = record { sequencer_counter = n + 1 } in
      let same : s.sequencer ≡ counter = ap (λ c. record { sequencer_counter = c }) h.counted in
      let room : packed_wire_size ≤ length (storage (n + 1)) = omega (arith, whole (n + 1)) in
      let made =
        ap (λ q. generate_message (storage q.sequencer_counter) q event) same
        ∙ generate_message_lem (storage (n + 1)) counter event room in
      (
        _,
        ap (λ r. send_out r s) made,
        record {
          counted = omega arith;
          cached =
              subst
                (λ k.
                  Caches cache_size packet k (put_item cache_size (packet n) s.retransmit_cache))
                (omega arith)
                (put_item-Caches (omega arith) packet n s.retransmit_cache small h.cached);
        },
        refl,
      )

  -- the messages of `count` events, from the event `n` on
  unfoldable pub messages : ℕ → ℕ → List (List ℕ)
  messages n zero = []
  messages n (suc count) = message (message_at n) ∷ messages (n + 1) count

  run_lem :
      (count n : ℕ) (s : ExchangeSimulator)
      → n + count ≤ is_locked
      → Handled n s
      → (s' : ExchangeSimulator) × (run storage events (n + 1) count s ≡ some s')
        × Handled (n + count) s'
        × (s'.broadcast ≡ s.broadcast ++ messages (n + 1) count)
  unfolding run messages
  run_lem zero n s small h =
      (s, refl, subst (λ k. Handled k s) (omega arith) h, sym (append-nil s.broadcast))
  run_lem (suc count) n s small h =
      let (s₁, q, h₁, out₁) = on_market_event-Handled n s (omega arith) h in
      let (s', q', h', out') = run_lem count (n + 1) s₁ (omega arith) h₁ in
      let later = messages (n + 1 + 1) count in
      (
        s',
        ap (λ m. m >>= λ t. run storage events (n + 1 + 1) count t) q ∙ q',
        subst (λ k. Handled k s') (omega arith) h',
        out'
            ∙ ap (λ b. b ++ later) out₁
            ∙ append_assoc s.broadcast (message (message_at (n + 1)) ∷ []) later,
      )

  -- From its start, the exchange takes any events, up to as many as the cache can number and with
  -- message buffers of their full size, and never fails. It broadcasts one message for each, in order,
  -- and then the retransmit cache holds what a cache holds to which just these messages were put, from
  -- the first on.
  pub run-keeps :
      (count : ℕ) (blank : ℕ → EncodedMessage)
      → count ≤ is_locked
      → (s : ExchangeSimulator) × (run storage events 1 count (fresh_exchange blank) ≡ some s)
        × Caches cache_size packet count s.retransmit_cache
        × (s.broadcast ≡ messages 1 count)
        × (s.sequencer.sequencer_counter ≡ count + 1)
  run-keeps count blank small =
      let (s, q, h, out) =
        run_lem count 0 (fresh_exchange blank) (omega arith)
          (record { counted = omega arith; cached = fresh-Caches (omega arith) packet blank }) in
      (
        s,
        q,
        subst (λ k. Caches cache_size packet k s.retransmit_cache) (omega arith) h.cached,
        out,
        omega (arith, h.counted),
      )

  -- What the server sends of a packet are the bytes that the client takes apart.
  pub packet-carries :
      (p : ℕ) → 0 < p → bytes_of packet p ≡ header_bytes (header_at p) ++ encode (events p)
  packet-carries p pos =
      let same : p - 1 + 1 ≡ p = omega arith in
      ap (λ n. message (message_at n)) same
      ∙ message-serialized (storage p) (encode (events p)) (header_at p) pos refl

  -- No message is longer than a connection's buffer.
  pub length-packet : (i : ℕ) → length (message (packet i)) ≤ max_wire_size
  length-packet i = omega (
    arith,
    ap length (
        message-serialized (storage (i + 1)) (encode (events (i + 1))) (header_at (i + 1))
          (omega arith) refl),
    length-append (header_bytes (header_at (i + 1))) (encode (events (i + 1))),
    length-header_bytes (header_at (i + 1)),
    length-encode (events (i + 1)),
  )
