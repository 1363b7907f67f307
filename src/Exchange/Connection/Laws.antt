-- ===== src/Exchange/Connection/Laws.antt =====
-- A connection that is sent on call by call, whatever part of it each call gets out.
use hft_architecture.Base.{
  ℕ, ◌+◌, ◌-◌, ◌≤◌, ◌≡◌, refl, sym, ap, ap₂, ◌∙◌, ◌⊎◌, inl, inr, Bool, true, false, ◌&&◌, Option,
  none, some, List, [], ◌++◌, append_assoc, append-nil, arith, leb, length, take, drop,
  length-append, take-append,
}
use mathlib.Core.Option.{some-injective}
use hft_architecture.Wire.Message.{max_wire_size}
use hft_architecture.Net.{Sent, Errno, slice, write_at, send_range, again, reset}
use hft_architecture.Net.Ranges.{SentLem, send_range_lem, slice-slice, length-write_at}
use hft_architecture.Net.Willing.{Willing, WillingLem, send_range-Willing}
use hft_architecture.Exchange.Connection.{
  Error, Connection, Socket, clear, saved_message, partial_send, cleared, is_open, may_save,
  may_send, save, send, send_error, after_send, would_block, client_connection_closed,
  send_to_client, packet_too_old, invalid_packet, packet_unavailable, client_connection,
  server_fatal, receive_from_client, register_event,
}

-- The cursors stand in the buffer; a message in it starts at `tail` and ends at `head`.
pub record IsValid (c : Connection) : Type 0 where
  pub ordered : c.tail ≤ c.head
  pub fits : c.head ≤ length c.buffer
  pub sized : length c.buffer ≡ max_wire_size
  pub idle : c.status ≡ clear → c.head ≡ 0

-- what is still to be sent
abbrev pub unsent : Connection → List ℕ
unsent c = slice c.tail c.head c.buffer

pub cleared-IsValid : (c : Connection) → length c.buffer ≡ max_wire_size → IsValid (cleared c)
unfolding cleared
cleared-IsValid c h = record {
  ordered = omega arith;
  fits = omega arith;
  sized = h;
  idle = λ e. refl;
}

-- A message that is saved in a clear connection is all that is to be sent.
pub save_lem :
    (bytes : List ℕ) (c : Connection)
    → IsValid c
    → c.status ≡ clear
    → length bytes ≤ max_wire_size
    → (c' : Connection) × (save bytes c ≡ some c')
      × IsValid c'
      × (c'.status ≡ saved_message)
      × (c'.socket_fd ≡ c.socket_fd)
      × (unsent c' ≡ bytes)
      × (c'.head ≡ length bytes)
unfolding save
save_lem bytes c v free short = rw guard (
  _,
  refl,
  record {
    ordered = omega (arith, v.ordered);
    fits = omega (arith, whole, v.sized, v.idle free);
    sized = whole ∙ v.sized;
    idle = λ e. cc;
  },
  refl,
  refl,
  ap₂ (λ h t. slice t (h + length bytes) (write_at h bytes c.buffer)) (v.idle free) at_start
      ∙ ap (λ n. take n (bytes ++ drop (0 + length bytes) c.buffer)) (omega arith)
      ∙ take-append bytes (drop (0 + length bytes) c.buffer) (length bytes) refl,
  omega (arith, v.idle free),
)
  where
    at_start : c.tail ≡ 0
    at_start = omega (arith, v.ordered, v.idle free)

    guard : (may_save c.status && leb (length bytes) (length c.buffer - c.head)) ≡ true
    guard = ground (arith, v.idle free, v.sized)

    whole : length (write_at c.head bytes c.buffer) ≡ length c.buffer
    whole = length-write_at c.head bytes c.buffer (omega (arith, v.idle free, v.sized))

abbrev pub is_failed_send : Option Error → Bool
is_failed_send none = false
is_failed_send (some would_block) = true
is_failed_send (some client_connection_closed) = true
is_failed_send (some send_to_client) = true
is_failed_send (some packet_too_old) = false
is_failed_send (some invalid_packet) = false
is_failed_send (some packet_unavailable) = false
is_failed_send (some client_connection) = false
is_failed_send (some server_fatal) = false
is_failed_send (some receive_from_client) = false
is_failed_send (some register_event) = false

pub send_error-is_failed_send : (x : Errno) → is_failed_send (some (send_error x)) ≡ true
send_error-is_failed_send again = refl
send_error-is_failed_send reset = refl
send_error-is_failed_send Errno.pipe = refl
send_error-is_failed_send Errno.other = refl

-- How a socket that takes at least a byte at each call moves: each answer that was used sent a byte,
-- and what would block has no answer left. The error may be one of the cache.
pub record Goes (sk : Socket) (e : Option Error) (sk' : Socket) : Type 0 where
  pub willing : Willing sk'.answers
  pub pays : length sk.answers + length sk.out ≤ length sk'.answers + length sk'.out
  pub stops : is_failed_send e ≡ true → (e ≡ some would_block) × (sk'.answers ≡ [])

-- What a send does: the bytes that went out and those still to be sent are together those that were
-- to be sent. With no error the connection is clear, and with one there is something left.
pub record SendLem (c : Connection) (sk : Socket) (e : Option Error) (c' : Connection)
    (sk' : Socket) : Type 0 where
  pub valid : IsValid c'
  pub same_socket : c'.socket_fd ≡ c.socket_fd
  pub in_order : sk'.out ++ unsent c' ≡ sk.out ++ unsent c
  pub same_pending : sk'.pending ≡ sk.pending
  pub goes : Willing sk.answers → Goes sk e sk'
  pub outcome :
      ((e ≡ none) × (c'.status ≡ clear))
      ⊎ ((x : Errno) × (e ≡ some (send_error x)) × (c'.status ≡ partial_send))

after_send_lem :
    (c : Connection) (sk : Socket) (r : Sent)
    → IsValid c
    → SentLem c.buffer c.tail c.head r
    → (Willing sk.answers → WillingLem sk.answers r)
    → (err : Option Errno) → r.error ≡ err
    → let (e, c') = after_send err r.start c in
      SendLem c sk e c' (record sk { answers = r.answers; out = sk.out ++ r.out })
unfolding cleared
after_send_lem c sk r v lem keeps none q = record {
  valid = cleared-IsValid c v.sized;
  same_socket = refl;
  in_order =
      append-nil (sk.out ++ r.out)
      ∙ ap (λ t. sk.out ++ t) (lem.went ∙ ap (λ k. slice c.tail k c.buffer) (lem.complete.0 q));
  same_pending = refl;
  goes = λ w. record {
    willing = (keeps w).willing;
    pays = omega (arith, (keeps w).pays, length-append sk.out r.out);
    stops = λ h. cc;
  };
  outcome = inl (refl, refl);
}
after_send_lem c sk r v lem keeps (some x) q = record {
  valid = record { ordered = lem.within; fits = v.fits; sized = v.sized; idle = λ e. cc };
  same_socket = refl;
  in_order =
      append_assoc sk.out r.out (slice r.start c.head c.buffer)
      ∙ ap (λ t. sk.out ++ t)
          (ap (λ t. t ++ slice r.start c.head c.buffer) lem.went
            ∙ slice-slice c.tail r.start c.head c.buffer lem.on lem.within);
  same_pending = refl;
  goes = λ w. record {
    willing = (keeps w).willing;
    pays = omega (arith, (keeps w).pays, length-append sk.out r.out);
    stops = λ h. elim (keeps w).stops [
      | inl b ↦ cc
      | inr (b, done) ↦ (ap (λ y. some (send_error y)) (some-injective x again (sym q ∙ b)), done)
    ];
  };
  outcome = inr (x, refl, refl);
}

pub send_lem :
    (c : Connection) (sk : Socket)
    → IsValid c
    → is_open c ≡ true
    → may_send c.status ≡ true
    → (e : Option Error) × (c' : Connection) × (sk' : Socket) × (send c sk ≡ some (e, c', sk'))
      × SendLem c sk e c' sk'
unfolding send
send_lem c sk v op ms =
    let r = send_range sk.answers c.buffer c.tail c.head in
    let lem = send_range_lem sk.answers c.buffer c.tail c.head v.ordered in
    rw (op, ms)
      (
        _,
        _,
        _,
        refl,
        after_send_lem c sk r v lem
            (λ w. send_range-Willing sk.answers c.buffer c.tail c.head v.ordered v.fits w) r.error
            refl,
      )
