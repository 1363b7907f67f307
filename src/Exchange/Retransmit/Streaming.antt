-- ===== src/Exchange/Retransmit/Streaming.antt =====
-- The bytes that a client gets for its request, over however many calls its socket spreads them.
use hft_architecture.Base.{
  ℕ, zero, suc, ◌+◌, ◌-◌, ◌≤◌, ◌<◌, ◌≡◌, refl, sym, ap, ◌∙◌, inl, inr, Bool, true, false, Option,
  none, some, List, [], ◌++◌, append-nil, arith, ltb, leb, if◌then◌else◌, Bool-cases, length, take,
  drop,
}
use hft_architecture.Wire.Request.{RetransmitRequest}
use hft_architecture.Wire.Message.{EncodedMessage, message, max_wire_size}
use hft_architecture.Wire.Sequencer.{first_sequence_id}
use hft_architecture.Net.{Errno}
use hft_architecture.Net.Willing.{Willing}
use hft_architecture.Exchange.Cache.{
  concurrent_write, CircularCache, CacheError, data_too_old, data_does_not_exist, try_get_item,
  is_locked,
}
use hft_architecture.Exchange.Cache.Laws.{Caches, lookup, try_get_item_lem}
use hft_architecture.Exchange.Connection.{
  Error, clear, partial_send, Connection, Socket, is_open, send, send_error, may_send,
}
use hft_architecture.Exchange.Connection.Laws.{Goes, IsValid, unsent, SendLem, save_lem, send_lem}
use hft_architecture.Exchange.Retransmit.{
  SavedConnection, cache_size, cache_index, cache_error, stream_packet, ◌>>=◌, send_item,
}

module _ (packet : ℕ → EncodedMessage) where
  -- the bytes of a packet; the first packet is the item 0 of the cache
  abbrev pub bytes_of : ℕ → List ℕ
  bytes_of p = message (packet (p - first_sequence_id))

  -- the bytes of `count` packets from the packet `p` on
  unfoldable pub feed : ℕ → ℕ → List ℕ
  feed p zero = []
  feed p (suc count) = bytes_of p ++ feed (p + 1) count

  -- what a client has still to get for its request
  abbrev pub owed : Bool → RetransmitRequest → Connection → List ℕ
  owed partial r c =
      if partial
      then unsent c ++ feed (r.first_packet + 1) (r.last_packet - (r.first_packet + 1))
      else feed r.first_packet (r.last_packet - r.first_packet)

-- The packet is among those that the cache still holds when `n` were put.
abbrev pub IsHeld : ℕ → ℕ → Type 0
IsHeld n p = (p ≤ n) × (n < p + cache_size)

-- What streaming the request `r` from the connection `c` comes to. It ends when all was sent; or it
-- stops in the middle of a packet, as the socket takes no more; or at a packet that the cache does
-- not hold. What went out and what is still owed are together what was owed.
pub data Outcome (packet : ℕ → EncodedMessage) (n : ℕ) (owing : List ℕ) (r : RetransmitRequest)
    (sk : Socket) (e : Option Error) (client : SavedConnection) (sk' : Socket) : Type 0 where
  done :
      e ≡ none
      → client.request ≡ none
      → client.connection.status ≡ clear
      → sk'.out ≡ sk.out ++ owing
      → Outcome packet n owing r sk e client sk'
  paused :
      (p : ℕ) (x : Errno)
      → e ≡ some (send_error x)
      → client.request ≡ some (record r { first_packet = p })
      → client.connection.status ≡ partial_send
      → r.first_packet ≤ p
      → p < r.last_packet
      → sk'.out ++ owed packet true (record r { first_packet = p }) client.connection
        ≡ sk.out ++ owing
      → Outcome packet n owing r sk e client sk'
  missing :
      (p : ℕ) (y : CacheError)
      → e ≡ some (cache_error y)
      → client.request ≡ some (record r { first_packet = p })
      → client.connection.status ≡ clear
      → r.first_packet ≤ p
      → p < r.last_packet
      → (¬ IsHeld n p)
      → sk'.out ++ owed packet false (record r { first_packet = p }) client.connection
        ≡ sk.out ++ owing
      → Outcome packet n owing r sk e client sk'

pub unsent-clear : (c : Connection) → IsValid c → c.status ≡ clear → unsent c ≡ []
unsent-clear c v free =
    let none_left : c.head - c.tail ≡ 0 = omega (arith, v.ordered, v.idle free) in
    ap (λ k. take k (drop c.tail c.buffer)) none_left

-- What trying to send `now`, of the packet `p`, comes to: the cache does not hold it, it goes out, or a part of
-- it goes out and the rest stays in the connection.
pub data Tried (packet : ℕ → EncodedMessage) (n p : ℕ) (now : List ℕ) (sk : Socket)
    (e : Option Error) (c' : Connection) (sk' : Socket) : Type 0 where
  absent :
      (y : CacheError)
      → e ≡ some (cache_error y)
      → c'.status ≡ clear
      → sk'.out ≡ sk.out
      → (¬ IsHeld n p)
      → now ≡ bytes_of packet p
      → Tried packet n p now sk e c' sk'
  whole : e ≡ none → c'.status ≡ clear → sk'.out ≡ sk.out ++ now → Tried packet n p now sk e c' sk'
  part :
      (x : Errno)
      → e ≡ some (send_error x)
      → c'.status ≡ partial_send
      → sk'.out ++ unsent c' ≡ sk.out ++ now
      → Tried packet n p now sk e c' sk'

unfoldable pub PacketTried :
    (ℕ → EncodedMessage)
    → ℕ
    → ℕ
    → List ℕ
    → Connection
    → Socket
    → Option (Option Error × Connection × Socket)
    → Type 0
PacketTried packet n p now c sk res =
    (e : Option Error) × (c' : Connection) × (sk' : Socket) × (res ≡ some (e, c', sk'))
    × IsValid c'
    × (c'.socket_fd ≡ c.socket_fd)
    × (Willing sk.answers → Goes sk e sk')
    × Tried packet n p now sk e c' sk'

module _ (packet : ℕ → EncodedMessage) (n : ℕ) (cache : CircularCache EncodedMessage)
    (caches : Caches cache_size packet n cache) (some_put : 0 < n) (small : n ≤ is_locked)
    (short : (i : ℕ) → length (message (packet i)) ≤ max_wire_size) where
  looked_up :
      (p : ℕ)
      → 0 < p
      → p ≤ is_locked
      → try_get_item cache_size (cache_index p) cache ≡ lookup cache_size packet n (p - 1)
  looked_up p pos le =
      ap (λ i. try_get_item cache_size i cache) index
      ∙ try_get_item_lem (omega arith) packet n (p - 1) cache caches small (omega arith)
          (omega arith)
    where
      index : cache_index p ≡ p - 1
      index = omega arith

  -- a saved packet that is sent
  pub sent_lem :
      (p : ℕ) (now : List ℕ) (c c₁ : Connection) (sk : Socket)
      → IsValid c₁
      → c₁.socket_fd ≡ c.socket_fd
      → unsent c₁ ≡ now
      → (e : Option Error) (c' : Connection) (sk' : Socket) → SendLem c₁ sk e c' sk'
      → send c₁ sk ≡ some (e, c', sk')
      → PacketTried packet n p now c sk (send c₁ sk)
  unfolding PacketTried
  sent_lem p now c c₁ sk v₁ fd₁ un₁ e c' sk' l q = (
    e,
    c',
    sk',
    q,
    l.valid,
    l.same_socket ∙ fd₁,
    l.goes,
    elim l.outcome [
      | inl (a, b) ↦ whole a b (
          sym (append-nil sk'.out)
          ∙ ap (λ t. sk'.out ++ t) (sym (unsent-clear c' l.valid b))
          ∙ in_order)
      | inr (x, a, b) ↦ part x a b in_order
    ],
  )
    where
      in_order : sk'.out ++ unsent c' ≡ sk.out ++ now
      in_order = l.in_order ∙ ap (λ t. sk.out ++ t) un₁

  send_item_lem :
      (p : ℕ) (c : Connection) (sk : Socket)
      → 0 < p
      → IsValid c
      → c.status ≡ clear
      → is_open c ≡ true
      → PacketTried packet n p
          (bytes_of packet p)
          c
          sk
          (send_item (lookup cache_size packet n (p - 1)) c sk)
  unfolding PacketTried lookup
  send_item_lem p c sk pos v free op = elim (Bool-cases (leb n (p - 1))) [
    | inl e ↦ rw e (
      _,
      _,
      _,
      refl,
      v,
      refl,
      stays data_does_not_exist,
      absent data_does_not_exist refl free refl (λ h. absurd (ground arith)) refl,
    )
    | inr e ↦ rw e (elim (Bool-cases (ltb (p - 1 + cache_size) n)) [
      | inl f ↦ rw f (
        _,
        _,
        _,
        refl,
        v,
        refl,
        stays data_too_old,
        absent data_too_old refl free refl (λ h. absurd (ground arith)) refl,
      )
      | inr f ↦
          let (c₁, saved, v₁, status₁, fd₁, un₁, _) =
            save_lem (bytes_of packet p) c v free (short (p - 1)) in
          let (err, c₂, sk₂, sent, l) =
            send_lem c₁ sk v₁ (ap open_at fd₁ ∙ op) (ap may_send status₁) in
          rw (f, saved, ◌>>=◌) (sent_lem p (bytes_of packet p) c c₁ sk v₁ fd₁ un₁ err c₂ sk₂ l sent)
    ])
  ]
    where
      stays : (y : CacheError) → Willing sk.answers → Goes sk (some (cache_error y)) sk
      stays data_too_old w = record { willing = w; pays = omega arith; stops = λ h. cc }
      stays data_does_not_exist w = record { willing = w; pays = omega arith; stops = λ h. cc }
      stays concurrent_write w = record { willing = w; pays = omega arith; stops = λ h. cc }

      open_at : Option ℕ → Bool
      open_at fd = elim fd [ none ↦ false | some _ ↦ true ]

  pub stream_packet_lem :
      (p : ℕ) (c : Connection) (sk : Socket)
      → 0 < p
      → p ≤ is_locked
      → IsValid c
      → c.status ≡ clear
      → is_open c ≡ true
      → PacketTried packet n p (bytes_of packet p) c sk (stream_packet cache p c sk)
  unfolding stream_packet
  stream_packet_lem p c sk pos le v free op =
      rw (looked_up p pos le) (send_item_lem p c sk pos v free op)
