-- ===== src/Exchange/Retransmit/Loop.antt =====
-- The loop of `stream_packets`, over the packets of a request.
use hft_architecture.Wire.Sequencer.{first_sequence_id}
use hft_architecture.Base.{
  ℕ, zero, suc, ◌+◌, ◌-◌, ◌≤◌, ◌<◌, ◌≡◌, refl, sym, ap, ap₂, subst, ◌∙◌, ◌⊎◌, inl, inr, true, false,
  Option, none, some, List, ◌++◌, append_assoc, append-nil, arith, ltb, length,
}
use hft_architecture.Wire.Request.{RetransmitRequest}
use hft_architecture.Wire.Message.{EncodedMessage, message, max_wire_size}
use hft_architecture.Net.Willing.{Willing}
use hft_architecture.Exchange.Cache.{CircularCache, is_locked}
use hft_architecture.Exchange.Cache.Laws.{Caches}
use hft_architecture.Exchange.Connection.{
  Error, clear, partial_send, Connection, Socket, is_open, may_send,
}
use hft_architecture.Exchange.Connection.Laws.{IsValid, unsent, send_lem, Goes}
use hft_architecture.Exchange.Retransmit.{
  SavedConnection, Result, cache_size, is_partial, next_packet, stream_loop, stream_from,
  stream_request, ◌>>=◌, go_on,
}
use hft_architecture.Exchange.Retransmit.Streaming.{
  bytes_of, feed, owed, Outcome, done, paused, missing, Tried, absent, whole, part, PacketTried,
  stream_packet_lem, sent_lem,
}

-- what one more packet leaves of the rest
advance_lem :
    (packet : ℕ → EncodedMessage) (n : ℕ) (owing owing' : List ℕ) (r : RetransmitRequest)
    (sk sk₁ sk' : Socket) (e : Option Error) (client : SavedConnection)
    → r.first_packet < r.last_packet
    → r.last_packet ≤ is_locked
    → sk₁.out ++ owing' ≡ sk.out ++ owing
    → Outcome packet n owing' (next_packet r) sk₁ e client sk'
    → Outcome packet n owing r sk e client sk'
advance_lem packet n owing owing' r sk sk₁ sk' e client lt le link (done a b c d) =
    done a b c (d ∙ link)
advance_lem packet n owing owing' r sk sk₁ sk' e client lt le link (paused p x a b c lo hi d) =
    paused p x a b c (omega arith) hi (d ∙ link)
advance_lem packet n owing owing' r sk sk₁ sk' e client lt le link (missing p y a b c lo hi h d) =
    missing p y a b c (omega arith) hi h (d ∙ link)

Goes-then :
    (sk sk₁ sk' : Socket) (e : Option Error)
    → (Willing sk.answers → Goes sk none sk₁)
    → (Willing sk₁.answers → Goes sk₁ e sk')
    → Willing sk.answers
    → Goes sk e sk'
Goes-then sk sk₁ sk' e one two w =
    let g = one w in
    let h = two g.willing in
    record { willing = h.willing; pays = omega (arith, g.pays, h.pays); stops = h.stops }

-- What streaming gives, the connection with it.
unfoldable pub Streamed :
    (ℕ → EncodedMessage) → ℕ → List ℕ → RetransmitRequest → Connection → Socket → Result → Type 0
Streamed packet n owing r c sk res =
    (e : Option Error) × (client : SavedConnection) × (sk' : Socket) × (res ≡ some (e, client, sk'))
    × IsValid client.connection
    × (client.connection.socket_fd ≡ c.socket_fd)
    × (Willing sk.answers → Goes sk e sk')
    × Outcome packet n owing r sk e client sk'

module _ (packet : ℕ → EncodedMessage) (n : ℕ) where
  -- what comes after the first bytes of what was owed, `now`, were tried
  tried_lem :
      (k : ℕ) (now : List ℕ) (r : RetransmitRequest) (c : Connection) (sk : Socket)
      → r.last_packet - r.first_packet ≡ suc k
      → r.last_packet ≤ is_locked
      → (rest : Connection → Socket → Result) → (e : Option Error) (c₁ : Connection) (sk₁ : Socket)
      → IsValid c₁
      → c₁.socket_fd ≡ c.socket_fd
      → (Willing sk.answers → Goes sk e sk₁)
      → (c₁.status ≡ clear
          → Streamed packet n
              (feed packet (r.first_packet + 1) k)
              (next_packet r)
              c₁
              sk₁
              (rest c₁ sk₁))
      → Tried packet n r.first_packet now sk e c₁ sk₁
      → Streamed packet n
          (now ++ feed packet (r.first_packet + 1) k)
          r
          c
          sk
          (go_on r rest (e, c₁, sk₁))
  unfolding Streamed feed
  tried_lem k now r c sk upto le rest e c₁ sk₁ v fd goes next (absent y a free o h same) = rw a (
    _,
    _,
    _,
    refl,
    v,
    fd,
    λ w. rw a at goes w,
    missing r.first_packet y refl refl free (omega arith) (omega arith) h (
        ap₂ (λ s t. s ++ t) o
          (ap (feed packet r.first_packet) upto
            ∙ ap (λ t. t ++ feed packet (r.first_packet + 1) k) (sym same))),
  )
  tried_lem k now r c sk upto le rest e c₁ sk₁ v fd goes next (whole a free o) =
      let (e', client, sk', q, v', fd', goes', out) = next free in
      rw a (
        e',
        client,
        sk',
        q,
        v',
        fd' ∙ fd,
        Goes-then sk sk₁ sk' e' (λ w. rw a at goes w) goes',
        advance_lem packet n (now ++ feed packet (r.first_packet + 1) k)
            (feed packet (r.first_packet + 1) k) r sk sk₁ sk' e' client (omega arith) le
            (ap (λ t. t ++ feed packet (r.first_packet + 1) k) o
              ∙ append_assoc sk.out now (feed packet (r.first_packet + 1) k))
            out,
      )
  tried_lem k now r c sk upto le rest e c₁ sk₁ v fd goes next (part x a s o) =
      let rest_of : r.last_packet - (r.first_packet + 1) ≡ k = omega arith in
      let more = feed packet (r.first_packet + 1) k in
      rw a (
        _,
        _,
        _,
        refl,
        v,
        fd,
        λ w. rw a at goes w,
        paused r.first_packet x refl refl s (omega arith) (omega arith) (
            ap (λ m. sk₁.out ++ (unsent c₁ ++ feed packet (r.first_packet + 1) m)) rest_of
            ∙ sym (append_assoc sk₁.out (unsent c₁) more)
            ∙ ap (λ t. t ++ more) o
            ∙ append_assoc sk.out now more),
      )

module _ (packet : ℕ → EncodedMessage) (n : ℕ) (cache : CircularCache EncodedMessage)
    (caches : Caches cache_size packet n cache) (some_put : 0 < n) (small : n ≤ is_locked)
    (short : (i : ℕ) → length (message (packet i)) ≤ max_wire_size) where
  -- the number of the next packet does not wrap
  next_lem :
      (k : ℕ) (r : RetransmitRequest) (c : Connection) (sk : Socket) (res : Result)
      → r.first_packet < r.last_packet
      → r.last_packet ≤ is_locked
      → Streamed packet n (feed packet (next_packet r).first_packet k) (next_packet r) c sk res
      → Streamed packet n (feed packet (r.first_packet + 1) k) (next_packet r) c sk res
  next_lem k r c sk res lt le h =
      let bump : (next_packet r).first_packet ≡ r.first_packet + 1 = omega arith in
      subst (λ p. Streamed packet n (feed packet p k) (next_packet r) c sk res) bump h

  pub stream_loop_lem :
      (k : ℕ) (r : RetransmitRequest) (c : Connection) (sk : Socket)
      → r.last_packet - r.first_packet ≡ k
      → 0 < r.first_packet
      → r.last_packet ≤ is_locked
      → IsValid c
      → c.status ≡ clear
      → is_open c ≡ true
      → Streamed packet n (feed packet r.first_packet k) r c sk (stream_loop cache k r c sk)
  unfolding Streamed stream_loop feed PacketTried
  stream_loop_lem zero r c sk upto pos le v free op =
      let finished : ltb r.first_packet r.last_packet ≡ false = ground arith in
      rw finished (
        _,
        _,
        _,
        refl,
        v,
        refl,
        λ w. record { willing = w; pays = omega arith; stops = λ h. cc },
        done refl refl free (sym (append-nil sk.out)),
      )
  stream_loop_lem (suc k) r c sk upto pos le v free op =
      let going : ltb r.first_packet r.last_packet ≡ true = ground arith in
      let (e, c₁, sk₁, q, v₁, fd, goes, tried) =
        stream_packet_lem packet n cache caches some_put small short r.first_packet c sk pos
          (omega arith) v free op in
      rw (going, q, ◌>>=◌)
        (tried_lem packet n k (bytes_of packet r.first_packet) r c sk upto le
          (λ c' sk'. stream_loop cache k (next_packet r) c' sk') e c₁ sk₁ v₁ fd goes
          (λ now_free.
            next_lem k r c₁ sk₁ (stream_loop cache k (next_packet r) c₁ sk₁) (omega arith) le (
              stream_loop_lem k (next_packet r) c₁ sk₁ (omega arith) (omega arith) le v₁ now_free
                (ap (λ s. is_open (record c { socket_fd = s })) fd ∙ op)))
          tried)

  pub stream_request_lem :
      (r : RetransmitRequest) (c : Connection) (sk : Socket)
      → 0 < r.first_packet
      → r.last_packet ≤ is_locked
      → IsValid c
      → is_open c ≡ true
      → (c.status ≡ clear) ⊎ ((c.status ≡ partial_send) × (r.first_packet < r.last_packet))
      → Streamed packet n
          (owed packet (is_partial c.status) r c)
          r
          c
          sk
          (stream_request cache r c sk)
  unfolding stream_request PacketTried Streamed
  stream_request_lem r c sk pos le v op (inl free) =
      let numbered : ltb r.first_packet first_sequence_id ≡ false = ground arith in
      rw (op, numbered, ap is_partial free)
        (stream_loop_lem (r.last_packet - r.first_packet) r c sk refl pos le v free op)
  stream_request_lem r c sk pos le v op (inr (sending, more)) =
      let numbered : ltb r.first_packet first_sequence_id ≡ false = ground arith in
      let (e, c₁, sk₁, q, l) = send_lem c sk v op (ap may_send sending) in
      let k = r.last_packet - (r.first_packet + 1) in
      let (e', c', sk', q', v', fd, goes, tried) =
        sent_lem packet n cache caches some_put small short r.first_packet (unsent c) c c sk v refl
          refl e c₁ sk₁ l q in
      rw (op, numbered, ap is_partial sending, q', ◌>>=◌)
        (tried_lem packet n k (unsent c) r c sk (omega arith) le (stream_from cache (next_packet r))
          e' c' sk' v' fd goes
          (λ free. next_lem k r c' sk' (stream_from cache (next_packet r) c' sk') more le (
            subst
              (λ m.
                Streamed packet n (feed packet (next_packet r).first_packet k) (next_packet r) c'
                  sk' (stream_loop cache m (next_packet r) c' sk'))
              (omega arith)
              (stream_loop_lem k (next_packet r) c' sk' (omega arith) (omega arith) le v' free
                (ap (λ s. is_open (record c { socket_fd = s })) fd ∙ op))))
          tried)
