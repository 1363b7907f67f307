-- ===== src/Exchange/Retransmit/Events.antt =====
-- A client whose request is being streamed, event by event.
use hft_architecture.Base.{
  ℕ, suc, ◌+◌, ◌≤◌, ◌<◌, ◌≡◌, refl, ap, subst, ◌∙◌, ◌⊎◌, inl, inr, true, false, Option, none, some,
  List, [], ◌∷◌, ◌++◌, arith, length, take, length-append, sub64,
}
use hft_architecture.Wire.Request.{RetransmitRequest}
use hft_architecture.Wire.Message.{EncodedMessage, message, max_wire_size}
use hft_architecture.Net.{Answer, Errno, again, reset}
use hft_architecture.Net.Willing.{Willing, Willing-cases}
use hft_architecture.Exchange.Cache.{
  CircularCache, is_locked, CacheError, data_too_old, data_does_not_exist, concurrent_write,
}
use hft_architecture.Exchange.Cache.Laws.{Caches}
use hft_architecture.Exchange.Connection.{
  Error, client_connection_closed, send_to_client, clear, partial_send, Socket, is_open, send_error,
  packet_too_old, invalid_packet, packet_unavailable,
}
use hft_architecture.Exchange.Connection.Laws.{IsValid, Goes}
use hft_architecture.Exchange.Retransmit.{
  SavedConnection, Served, Result, cache_size, cache_error, is_partial, stream_request,
  stream_packets, after_stream, handle_status, handle_request, handle_events, ◌>>=◌, close_client,
  shut,
}
use hft_architecture.Exchange.Retransmit.Streaming.{owed, IsHeld, Outcome, done, paused, missing}
use hft_architecture.Exchange.Retransmit.Loop.{Streamed, stream_request_lem}

-- A client in the middle of a packet of its request, which ends no later than number 2^32 - 1: the
-- index into the cache has 32 bits, to which a larger number is cut.
pub record IsServing (client : SavedConnection) (r : RetransmitRequest) : Type 0 where
  pub requested : client.request ≡ some r
  pub valid : IsValid client.connection
  pub opened : is_open client.connection ≡ true
  pub sending : client.connection.status ≡ partial_send
  pub numbered : 0 < r.first_packet
  pub more : r.first_packet < r.last_packet
  pub small : r.last_packet ≤ is_locked

-- Every batch of answers is not empty, and each of its answers takes a byte at least.
abbrev pub AllWilling : List (List Answer) → Type 0
AllWilling [] = Unit
AllWilling (answers ∷ more) = (0 < length answers) × Willing answers × AllWilling more

handle_request-serving :
    (cache : CircularCache EncodedMessage) (storage : List ℕ) (client : SavedConnection)
    (r : RetransmitRequest) (sk : Socket) (n : ℕ)
    → client.request ≡ some r
    → client.connection.status ≡ partial_send
    → handle_request cache storage true client sk n
      ≡ after_stream storage true (stream_request cache r client.connection sk) n
unfolding handle_request stream_packets
handle_request-serving cache storage client r sk n req st =
    ap (λ s. handle_status cache storage true s client sk n) st
    ∙ ap (λ q. after_stream storage true (requests q) n) req
  where
    requests : Option RetransmitRequest → Result
    requests q = elim q [ none ↦ none | some r ↦ stream_request cache r client.connection sk ]

-- What an event comes to for a client that is owed `owing`: it gets all of it; or it waits in the
-- middle of a packet; or it is closed, as its socket failed or the cache does not hold a packet of its
-- request. Never is a byte sent out of turn.
pub data Handled (packet : ℕ → EncodedMessage) (n : ℕ) (owing : List ℕ) (r : RetransmitRequest)
    (sk : Socket) (connections : ℕ) (e : Option Error) (s : Served) : Type 0 where
  answered :
      e ≡ none
      → s.client.request ≡ none
      → s.client.connection.status ≡ clear
      → s.socket.out ≡ sk.out ++ owing
      → s.current_connections ≡ connections
      → Handled packet n owing r sk connections e s
  waiting :
      (p : ℕ)
      → e ≡ none
      → IsServing s.client (record r { first_packet = p })
      → r.first_packet ≤ p
      → s.socket.out ++ owed packet true (record r { first_packet = p }) s.client.connection
        ≡ sk.out ++ owing
      → (¬ Willing sk.answers) ⊎ (length sk.answers + length sk.out ≤ length s.socket.out)
      → s.current_connections ≡ connections
      → Handled packet n owing r sk connections e s
  closed :
      (x : Error) (lost : List ℕ)
      → e ≡ some x
      → s.client.request ≡ none
      → s.client.connection.socket_fd ≡ none
      → s.client.connection.status ≡ clear
      → s.socket.out ++ lost ≡ sk.out ++ owing
      → ((p : ℕ) × (r.first_packet ≤ p) × (p < r.last_packet) × (¬ IsHeld n p))
        ⊎ (¬ Willing sk.answers)
      → s.current_connections ≡ sub64 connections 1
      → Handled packet n owing r sk connections e s

abbrev pub HandledAs :
    (ℕ → EncodedMessage)
    → ℕ
    → List ℕ
    → RetransmitRequest
    → Socket
    → ℕ
    → Option (Option Error × Served)
    → Type 0
HandledAs packet n owing r sk connections res =
    (e : Option Error) × (s : Served) × (res ≡ some (e, s))
    × Handled packet n owing r sk connections e s

module _ (packet : ℕ → EncodedMessage) (n : ℕ) (storage : List ℕ) (owing : List ℕ)
    (r : RetransmitRequest) (sk sk' : Socket) (connections : ℕ) where
  shut_lem :
      (x : Error) (lost : List ℕ) (client : SavedConnection)
      → sk'.out ++ lost ≡ sk.out ++ owing
      → ((p : ℕ) × (r.first_packet ≤ p) × (p < r.last_packet) × (¬ IsHeld n p))
        ⊎ (¬ Willing sk.answers)
      → HandledAs packet n owing r sk connections (shut x client sk' connections)
  unfolding close_client
  shut_lem x lost client out why = (_, _, refl, closed x lost refl refl refl refl out why refl)

  -- the error of a send
  failed_send_lem :
      (p : ℕ) (x : Errno) (client : SavedConnection)
      → IsServing client (record r { first_packet = p })
      → r.first_packet ≤ p
      → sk'.out ++ owed packet true (record r { first_packet = p }) client.connection
        ≡ sk.out ++ owing
      → (Willing sk.answers → Goes sk (some (send_error x)) sk')
      → HandledAs packet n owing r sk connections
          (after_stream storage true (some (some (send_error x), client, sk')) connections)
  unfolding after_stream
  failed_send_lem p again client serving lo out goes = (
    _,
    _,
    refl,
    waiting p refl serving lo out
        (elim (Willing-cases sk.answers) [
          | inl w ↦ inr (omega (arith, (goes w).pays, ap length ((goes w).stops refl).1))
          | inr h ↦ inl h
        ])
        refl,
  )
  failed_send_lem p reset client serving lo out goes =
      shut_lem client_connection_closed _ client out
        (inr (λ w. let h = ((goes w).stops refl).0 in cc))
  failed_send_lem p Errno.pipe client serving lo out goes =
      shut_lem send_to_client _ client out (inr (λ w. let h = ((goes w).stops refl).0 in cc))
  failed_send_lem p Errno.other client serving lo out goes =
      shut_lem send_to_client _ client out (inr (λ w. let h = ((goes w).stops refl).0 in cc))

  -- the error of the cache
  missing_lem :
      (p : ℕ) (y : CacheError) (client : SavedConnection)
      → r.first_packet ≤ p
      → p < r.last_packet
      → (¬ IsHeld n p)
      → sk'.out ++ owed packet false (record r { first_packet = p }) client.connection
        ≡ sk.out ++ owing
      → HandledAs packet n owing r sk connections
          (after_stream storage true (some (some (cache_error y), client, sk')) connections)
  unfolding after_stream
  missing_lem p data_too_old client lo hi h out =
      shut_lem packet_too_old _ client out (inl (p, lo, hi, h))
  missing_lem p data_does_not_exist client lo hi h out =
      shut_lem invalid_packet _ client out (inl (p, lo, hi, h))
  missing_lem p concurrent_write client lo hi h out =
      shut_lem packet_unavailable _ client out (inl (p, lo, hi, h))

  outcome_lem :
      (e : Option Error) (client : SavedConnection)
      → 0 < r.first_packet
      → r.last_packet ≤ is_locked
      → IsValid client.connection
      → is_open client.connection ≡ true
      → (Willing sk.answers → Goes sk e sk')
      → Outcome packet n owing r sk e client sk'
      → HandledAs packet n owing r sk connections
          (after_stream storage true (some (e, client, sk')) connections)
  unfolding after_stream
  outcome_lem e client pos small v op goes (done a b st out) =
      rw a (_, _, refl, answered refl b st out refl)
  outcome_lem e client pos small v op goes (paused p x a b st lo hi out) = rw a (
      failed_send_lem p x client
        (record {
          requested = b;
          valid = v;
          opened = op;
          sending = st;
          numbered = omega arith;
          more = hi;
          small = small;
        })
        lo out (λ w. rw a at goes w))
  outcome_lem e client pos small v op goes (missing p y a b st lo hi h out) =
      rw a (missing_lem p y client lo hi h out)

-- The client gets all that it is owed, in the events to come.
pub Answered : CircularCache EncodedMessage → List ℕ → List (List Answer) → List ℕ → Served → Type 0
Answered cache storage batches owing s =
    (j : ℕ) × (s' : Served) × (j ≤ suc (length owing))
    × (handle_events cache storage (take j batches) s ≡ some s')
    × (s'.client.request ≡ none)
    × (s'.client.connection.status ≡ clear)
    × (s'.socket.out ≡ s.socket.out ++ owing)
    × (s'.current_connections ≡ s.current_connections)

module _ (packet : ℕ → EncodedMessage) (n : ℕ) (cache : CircularCache EncodedMessage)
    (caches : Caches cache_size packet n cache) (some_put : 0 < n) (small : n ≤ is_locked)
    (short : (i : ℕ) → length (message (packet i)) ≤ max_wire_size) (storage : List ℕ) where
  -- The cache holds what a cache holds to which `n` packets were put, one at least and no more than it
  -- can number, none longer than a connection's buffer, and the registration of write events succeeds.
  -- Then an event of a client in the middle of a packet of its request, whose request ends no later
  -- than number 2^32 - 1, since the cache takes indexes of 32 bits, never fails an assertion. The
  -- client has got all that it was owed; or it waits in the middle of a packet; or it is closed, since
  -- a packet is not held or the socket failed, and one connection less is counted. What went out and
  -- what is still owed, or is lost to a client that is closed, are together what went out and was owed
  -- before.
  pub handle_request-serves :
      (client : SavedConnection) (r : RetransmitRequest) (sk : Socket) (connections : ℕ)
      → IsServing client r
      → HandledAs packet n
          (owed packet true r client.connection)
          r
          sk
          connections
          (handle_request cache storage true client sk connections)
  unfolding Streamed
  handle_request-serves client r sk connections serving =
      let (e, client', sk', q, v, fd, goes, out) =
        stream_request_lem packet n cache caches some_put small short r client.connection sk
          serving.numbered serving.small serving.valid serving.opened
          (inr (serving.sending, serving.more)) in
      rw
        (
          handle_request-serving cache storage client r sk connections serving.requested
              serving.sending,
          q,
        )
        (outcome_lem packet n storage (owed packet true r client.connection) r sk sk' connections e
          client' serving.numbered serving.small v
          (ap (λ s. is_open (record client.connection { socket_fd = s })) fd ∙ serving.opened) goes
          (subst (λ b. Outcome packet n (owed packet b r client.connection) r sk e client' sk')
            (ap is_partial serving.sending) out))

  event_lem :
      (answers : List Answer) (more : List (List Answer)) (owing : List ℕ) (r : RetransmitRequest)
      (s : Served) (e : Option Error) (s₁ : Served)
      → handle_request cache storage true s.client
          (record s.socket { answers = answers })
          s.current_connections
        ≡ some (e, s₁)
      → ((p : ℕ) → r.first_packet ≤ p → p < r.last_packet → IsHeld n p)
      → 0 < length answers
      → Willing answers
      → length owing < suc (length more)
      → ((p : ℕ)
          → r.first_packet ≤ p
          → IsServing s₁.client (record r { first_packet = p })
          → length (owed packet true (record r { first_packet = p }) s₁.client.connection)
            < length more
          → Answered cache storage more
              (owed packet true (record r { first_packet = p }) s₁.client.connection)
              s₁)
      → Handled packet n owing r (record s.socket { answers = answers }) s.current_connections e s₁
      → Answered cache storage (answers ∷ more) owing s
  unfolding handle_events Answered
  event_lem answers more owing r s e s₁ q held some_answer w enough next
        (answered a b st out same) =
      (1, s₁, omega arith, rw (q, ◌>>=◌) refl, b, st, out, same)
  event_lem answers more owing r s e s₁ q held some_answer w enough next
        (waiting p a serving lo out (inl h) same) =
      absurd (h w)
  event_lem answers more owing r s e s₁ q held some_answer w enough next
        (waiting p a serving lo out (inr pays) same) =
      let left = owed packet true (record r { first_packet = p }) s₁.client.connection in
      let shorter : length left < length owing = omega (
        arith,
        pays,
        ap length out,
        length-append s₁.socket.out left,
        length-append s.socket.out owing,
      ) in
      let (j, s', le, run, b, st, out', same') = next p lo serving (omega arith) in
      (suc j, s', omega arith, rw (q, ◌>>=◌) run, b, st, out' ∙ out, same' ∙ same)
  event_lem answers more owing r s e s₁ q held some_answer w enough next
        (closed x lost a b fd st out (inl (p, lo, hi, h)) same) =
      absurd (h (held p lo hi))
  event_lem answers more owing r s e s₁ q held some_answer w enough next
        (closed x lost a b fd st out (inr h) same) =
      absurd (h w)

  -- A cache to which `n` packets were put, one at least and no more than it can number, none longer
  -- than a connection's buffer; registrations that succeed; and a client in the middle of a packet of
  -- its request that is owed `k` bytes, whose request ends no later than number 2^32 - 1, and whose
  -- packets are all held. If each of the events to come, more than `k` of them, finds room for one
  -- byte at least, no more than `k + 1` of them are handled before the client has exactly the bytes
  -- that it was owed and its request is done, and the connection stays.
  pub handle_events-answers :
      (batches : List (List Answer)) (r : RetransmitRequest) (s : Served)
      → IsServing s.client r
      → ((p : ℕ) → r.first_packet ≤ p → p < r.last_packet → IsHeld n p)
      → AllWilling batches
      → length (owed packet true r s.client.connection) < length batches
      → Answered cache storage batches (owed packet true r s.client.connection) s
  handle_events-answers [] r s serving held w enough = absurd (omega arith)
  handle_events-answers (answers ∷ more) r s serving held (some_answer, w, ws) enough =
      let (e, s₁, q, handled) =
        handle_request-serves s.client r (record s.socket { answers = answers })
          s.current_connections serving in
      event_lem answers more (owed packet true r s.client.connection) r s e s₁ q held some_answer w
        enough
        (λ p lo still less.
          handle_events-answers more (record r { first_packet = p }) s₁ still
            (λ p' lo' hi'. held p' (omega arith) hi') ws less)
        handled
