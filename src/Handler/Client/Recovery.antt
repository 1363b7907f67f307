-- ===== src/Handler/Client/Recovery.antt =====
-- A request of the client whose packets the server sends, up to the reorder buffer.
use hft_architecture.Base.{
  ℕ, zero, suc, ◌+◌, ◌-◌, ◌*◌, ◌≤◌, ◌<◌, ◌≡◌, refl, sym, ap, subst, ◌∙◌, inl, inr, Bool, true,
  false, not, ◌&&◌, Option, none, some, List, [], ◌++◌, append_assoc, append-nil, arith, dec_lt,
  ltb, leb, ◌==◌, eq_of_==, ne_of_==, Bool-cases, length, take, length-take, take-append, Array,
  put, put_self, put_ne, u64_mod,
}
use hft_architecture.Order.{MarketEvent}
use hft_architecture.Wire.Request.{RetransmitRequest, serialize, length-serialize, packed_size}
use hft_architecture.Wire.Event.{encode, buffer_size}
use hft_architecture.Wire.Message.{EncodedMessage, packed_wire_size, max_wire_size, header_bytes}
use hft_architecture.Net.{send_range}
use hft_architecture.Net.Ranges.{send_range_lem}
use hft_architecture.Net.Willing.{Willing, send_range-Willing}
use hft_architecture.Exchange.Connection.{Socket}
use hft_architecture.Exchange.Retransmit.{next_packet, ◌>>=◌}
use hft_architecture.Exchange.Retransmit.Streaming.{bytes_of, feed}
use hft_architecture.Handler.Reorder.{ReorderBuffer}
use hft_architecture.Handler.Reorder.Laws.{Sequence, Holds, arrive, try_write_to_lem}
use hft_architecture.Handler.Publisher.{
  Bytes, error_of, write_market_data_to_reorder_buffer, retransmit_client_send,
}
use hft_architecture.Handler.Client.{Fetched, fetch_loop, handle_request, send_request_to_server}
use hft_architecture.Handler.Client.Delivery.{header_for, packet_lem}

-- the packets that arrive, one after the other
unfoldable pub arrive_from : ℕ → ℕ → ℕ → Sequence → Sequence
arrive_from cap p zero t = t
arrive_from cap p (suc k) t = arrive_from cap (p + 1) k (arrive cap p t).1

put_stays : (arrived : Array Bool) (p q : ℕ) → arrived q ≡ true → put arrived p true q ≡ true
put_stays arrived p q a = elim (Bool-cases (p == q)) [
  | inl e ↦ subst (λ i. put arrived p true i ≡ true) (eq_of_== p q e) (put_self arrived p true)
  | inr e ↦ put_ne arrived p q true (ne_of_== p q e) ∙ a
]

-- A packet in the window is taken, or was taken before.
arrive_lem :
    (cap p : ℕ) (t : Sequence)
    → p < t.next + (cap - 1)
    → (error_of (arrive cap p t).0 ≡ none)
      × ((arrive cap p t).1.next ≡ t.next)
      × ((q : ℕ) → t.arrived q ≡ true → (arrive cap p t).1.arrived q ≡ true)
      × (t.next ≤ p → (arrive cap p t).1.arrived p ≡ true)
unfolding arrive error_of
arrive_lem cap p t near =
    let close : leb (t.next + (cap - 1)) p ≡ false = ground arith in
    rw close (elim (Bool-cases (ltb p t.next)) [
      | inl old ↦ rw old (refl, refl, λ q a. a, λ le. absurd (ground arith))
      | inr new ↦ rw new (elim (Bool-cases (t.arrived p)) [
        | inl e ↦ rw e (refl, refl, λ q a. a, λ le. e)
        | inr e ↦ rw e (refl, refl, put_stays t.arrived p, λ le. put_self t.arrived p true)
      ])
    ])

write_lem :
    (cap : ℕ) (events : ℕ → MarketEvent) (p : ℕ) (b : ReorderBuffer Bytes) (t : Sequence)
    → 0 < cap
    → Holds cap (λ n. encode (events n)) b t
    → t.next + cap < u64_mod
    → p < t.next + (cap - 1)
    → let (e, b') = write_market_data_to_reorder_buffer cap (encode (events p)) p b in
      (e ≡ none) × Holds cap (λ n. encode (events n)) b' (arrive cap p t).1
unfolding write_market_data_to_reorder_buffer
write_lem cap events p b t pos h room near =
    let (same, h') = try_write_to_lem pos (λ n. encode (events n)) b t h room p in
    (ap error_of same ∙ (arrive_lem cap p t near).0, h')

-- All of a range arrive, and none that had arrived is lost.
pub arrive_from_lem :
    (cap k p : ℕ) (t : Sequence)
    → p + k ≤ t.next + (cap - 1)
    → ((arrive_from cap p k t).next ≡ t.next)
      × ((q : ℕ) → t.arrived q ≡ true → (arrive_from cap p k t).arrived q ≡ true)
      × ((q : ℕ) → p ≤ q → q < p + k → t.next ≤ q → (arrive_from cap p k t).arrived q ≡ true)
unfolding arrive_from
arrive_from_lem cap zero p t near = (refl, λ q a. a, λ q lo hi new. absurd (omega arith))
arrive_from_lem cap (suc k) p t near =
    let (fine, same, kept, came) = arrive_lem cap p t (omega arith) in
    let (same', kept', came') =
      arrive_from_lem cap k (p + 1) (arrive cap p t).1 (omega (arith, same)) in
    (
      same' ∙ same,
      λ q a. kept' q (kept q a),
      λ q lo hi new. elim (dec_lt p q) [
        | yes lt ↦ came' q (omega arith) (omega arith) (omega (arith, same))
        | no ge ↦
            let here : p ≡ q = omega arith in
            kept' q (subst (λ i. (arrive cap p t).1.arrived i ≡ true) here (came (omega arith)))
      ],
    )

module _ (cap : ℕ) (events : ℕ → MarketEvent) (packet : ℕ → EncodedMessage)
    (carries : (p : ℕ)
      → 0 < p
      → bytes_of packet p
        ≡ header_bytes (record { sequence_number = p; payload_length = length (encode (events p)) })
          ++ encode (events p))
    (storage : List ℕ) (whole : length storage ≡ max_wire_size) (nonzero : 0 < cap) where
  -- what the client comes to, with the bytes `more` still to be received
  abbrev Recovered : ℕ → RetransmitRequest → Sequence → Socket → List ℕ → Option Fetched → Type 0
  Recovered k r t sk more res =
      (f : Fetched) × (res ≡ some f)
      × (f.error ≡ none)
      × (f.socket.pending ≡ more)
      × (f.socket.out ≡ sk.out)
      × Holds cap (λ n. encode (events n)) f.reorder_buffer (arrive_from cap r.first_packet k t)

  fetch_loop_lem :
      (k : ℕ) (r : RetransmitRequest) (b : ReorderBuffer Bytes) (t : Sequence) (sk : Socket)
      (more : List ℕ)
      → r.last_packet - r.first_packet ≡ k
      → 0 < r.first_packet
      → r.last_packet < u64_mod
      → Holds cap (λ n. encode (events n)) b t
      → t.next + cap < u64_mod
      → r.last_packet ≤ t.next + (cap - 1)
      → sk.pending ≡ feed packet r.first_packet k ++ more
      → Willing sk.answers
      → k * (packed_wire_size + buffer_size) ≤ length sk.answers
      → Recovered k r t sk more (fetch_loop cap storage (λ p. false) k r b sk)
  unfolding fetch_loop feed arrive_from
  fetch_loop_lem zero r b t sk more upto pos le h room near there w enough =
      let finished : (ltb r.first_packet r.last_packet && not false) ≡ false = ground arith in
      rw finished (_, refl, refl, there, refl, h)
  fetch_loop_lem (suc k) r b t sk more upto pos le h room near there w enough =
      let going : (ltb r.first_packet r.last_packet && not false) ≡ true = ground arith in
      let bump : (next_packet r).first_packet ≡ r.first_packet + 1 = omega arith in
      let event = events r.first_packet in
      let later = feed packet (r.first_packet + 1) k in
      let (sk', got, took) =
        packet_lem cap storage (feed packet (r.first_packet + 1) k ++ more) event r b sk whole pos
          (omega arith)
          (there
            ∙ ap (λ x. (x ++ later) ++ more) (carries r.first_packet pos)
            ∙ append_assoc (header_bytes (header_for r event) ++ encode event) later more
            ∙ append_assoc (header_bytes (header_for r event)) (encode event) (later ++ more))
          w (omega arith) in
      let (fine, h') = write_lem cap events r.first_packet b t nonzero h room (omega arith) in
      let (written, same, kept, came) = arrive_lem cap r.first_packet t (omega arith) in
      let (f, q, none_left, left, out, holds) =
        fetch_loop_lem k (next_packet r) _ (arrive cap r.first_packet t).1 sk' more (omega arith)
          (omega arith) le h' (omega (arith, same)) (omega (arith, same))
          (took.left ∙ ap (λ p. feed packet p k ++ more) (sym bump)) took.willing
          (omega (arith, took.pays)) in
      rw (going, got, ◌>>=◌, fine)
        (
          f,
          q,
          none_left,
          left,
          out ∙ took.same_out,
          subst
              (λ p.
                Holds cap (λ n. encode (events n)) f.reorder_buffer
                  (arrive_from cap p k (arrive cap r.first_packet t).1))
              bump holds,
        )

  sent_request_lem :
      (r : RetransmitRequest) (sk : Socket)
      → Willing sk.answers
      → packed_size ≤ length sk.answers
      → (sk' : Socket) × (send_request_to_server r sk ≡ (none, sk'))
        × (sk'.out ≡ sk.out ++ serialize r)
        × (sk'.pending ≡ sk.pending)
        × Willing sk'.answers
        × (length sk.answers ≤ length sk'.answers + packed_size)
  unfolding send_request_to_server
  sent_request_lem r sk w enough =
      let len = length-serialize r in
      let wire = serialize r in
      let x = send_range sk.answers wire 0 (length wire) in
      let l = send_range_lem sk.answers wire 0 (length wire) (omega arith) in
      let a = send_range-Willing sk.answers wire 0 (length wire) (omega arith) (omega arith) w in
      let minus_none : x.start - 0 ≡ x.start = omega arith in
      let went : length x.out ≡ x.start =
        ap length l.went ∙ length-take (x.start - 0) wire (omega (arith, l.within)) ∙ minus_none in
      let sent : x.error ≡ none = elim a.stops [
        | inl e ↦ e
        | inr (e, used) ↦ l.complete.1 (omega (arith, a.pays, ap length used, went, l.within, len))
      ] in
      let at_end : x.start - 0 ≡ length wire = omega (arith, l.complete.0 sent) in
      let full : x.out ≡ wire =
        l.went
        ∙ ap (λ n. take n wire) at_end
        ∙ ap (take (length wire)) (sym (append-nil wire))
        ∙ take-append wire [] (length wire) refl in
      (
        record sk { answers = x.answers; out = sk.out ++ x.out },
        ap
            (λ e. (
              elim e [ none ↦ none | some _ ↦ some retransmit_client_send ],
              record sk { answers = x.answers; out = sk.out ++ x.out },
            ))
            sent,
        ap (λ o. sk.out ++ o) full,
        refl,
        a.willing,
        omega (arith, a.pays, went, l.within, len),
      )

  -- A request that the server answers with its packets, each its header and the bytes of its event, on
  -- a socket that answers enough calls, each with a byte at least: the client sends the request and takes exactly
  -- the bytes of those packets, and returns without an error. The reorder buffer then holds, besides
  -- what it held, the event of each packet of the request that was not delivered before. The packets
  -- must be in the window of the reorder buffer, a message's buffer must have its full size, and no
  -- stop is requested.
  pub handle_request-recovers :
      (r : RetransmitRequest) (b : ReorderBuffer Bytes) (t : Sequence) (sk : Socket) (more : List ℕ)
      → 0 < r.first_packet
      → r.first_packet ≤ r.last_packet
      → r.last_packet < u64_mod
      → Holds cap (λ n. encode (events n)) b t
      → t.next + cap < u64_mod
      → r.last_packet ≤ t.next + (cap - 1)
      → sk.pending ≡ feed packet r.first_packet (r.last_packet - r.first_packet) ++ more
      → Willing sk.answers
      → packed_size + (r.last_packet - r.first_packet) * (packed_wire_size + buffer_size)
        ≤ length sk.answers
      → (f : Fetched) × (t' : Sequence) × (handle_request cap storage (λ p. false) r b sk ≡ some f)
        × (f.error ≡ none)
        × (f.socket.out ≡ sk.out ++ serialize r)
        × (f.socket.pending ≡ more)
        × Holds cap (λ n. encode (events n)) f.reorder_buffer t'
        × (t'.next ≡ t.next)
        × ((q : ℕ) → t.arrived q ≡ true → t'.arrived q ≡ true)
        × ((q : ℕ) → r.first_packet ≤ q → q < r.last_packet → t.next ≤ q → t'.arrived q ≡ true)
  unfolding handle_request
  handle_request-recovers r b t sk more pos ordered le h room near there w enough =
      let k = r.last_packet - r.first_packet in
      let (sk', sent, out, same, w', pays) = sent_request_lem r sk w (omega arith) in
      let (f, q, fine, left, out', holds) =
        fetch_loop_lem k r b t sk' more refl pos le h room near (same ∙ there) w' (omega arith) in
      let (next, kept, came) = arrive_from_lem cap k r.first_packet t (omega arith) in
      (
        f,
        arrive_from cap r.first_packet k t,
        rw sent q,
        fine,
        out' ∙ out,
        left,
        holds,
        next,
        kept,
        λ q lo hi new. came q lo (omega arith) new,
      )
