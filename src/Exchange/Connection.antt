-- ===== src/Exchange/Connection.antt =====
-- includes/exchange/tcp-connection.hpp: Connection, whose buffer has `max_wire_size` bytes, and the
-- errors of includes/exchange/exchange-errors.hpp. A failed assertion gives `none`. A descriptor of -1
-- is `none`. The system's side of the socket is a Socket: its answers to the calls to come, the bytes
-- that went out, oldest first, and those that came in and were not received yet.
pub mod Laws
use hft_architecture.Base.{
  ℕ, ◌+◌, ◌-◌, Bool, true, false, ◌&&◌, Option, none, some, List, ◌++◌, leb, if◌then◌else◌, length,
  take,
}
use hft_architecture.Net.{
  Errno, again, reset, Answer, write_at, send_range, recv_range, ReceiveStatus, success,
  connection_closed, error,
}

pub data Error : Type 0 where
  packet_too_old invalid_packet packet_unavailable client_connection server_fatal : Error
  client_connection_closed would_block receive_from_client send_to_client register_event : Error

-- the values of the errors that are sent to a client, and of the others by their place
abbrev pub error_code : Error → ℕ
error_code packet_too_old = 1
error_code invalid_packet = 2
error_code packet_unavailable = 3
error_code client_connection = 4
error_code server_fatal = 5
error_code client_connection_closed = 16
error_code would_block = 17
error_code receive_from_client = 18
error_code send_to_client = 19
error_code register_event = 22

pub data Status : Type 0 where
  clear saved_message partial_send partial_receive : Status

pub record Connection : Type 0 where
  pub buffer : List ℕ
  pub socket_fd : Option ℕ
  pub head : ℕ
  pub tail : ℕ
  pub status : Status

pub record Socket : Type 0 where
  pub answers : List Answer
  pub out : List ℕ
  pub pending : List ℕ

-- a connection that no socket was given to
abbrev pub unused : List ℕ → Connection
unused storage = record { buffer = storage; socket_fd = none; head = 0; tail = 0; status = clear }

abbrev pub set_socket : ℕ → Connection → Connection
set_socket socket c = record c { socket_fd = some socket }

-- the function `clear`
unfoldable pub cleared : Connection → Connection
cleared c = record c { head = 0; tail = 0; status = clear }

unfoldable pub close : Connection → Connection
unfolding cleared
close c = record (cleared c) { socket_fd = none }

-- `steal`: what the connection takes over, and what is left of the other
unfoldable pub steal : Connection → Connection × Connection
unfolding cleared
steal other = (other, record (cleared other) { socket_fd = none })

abbrev pub is_open : Connection → Bool
is_open c = elim c.socket_fd [ none ↦ false | some _ ↦ true ]

abbrev pub is_clear : Status → Bool
is_clear clear = true
is_clear saved_message = false
is_clear partial_send = false
is_clear partial_receive = false

abbrev pub may_save : Status → Bool
may_save clear = true
may_save saved_message = true
may_save partial_send = false
may_save partial_receive = false

abbrev pub may_send : Status → Bool
may_send clear = false
may_send saved_message = true
may_send partial_send = true
may_send partial_receive = false

abbrev pub may_receive : ℕ → Connection → Bool
may_receive bytes c = elim c.status [
  | clear ↦ leb bytes (length c.buffer)
  | saved_message ↦ false
  | partial_send ↦ false
  | partial_receive ↦ true
]

unfoldable pub save : List ℕ → Connection → Option Connection
save bytes c =
    if may_save c.status && leb (length bytes) (length c.buffer - c.head)
    then some (record c {
      buffer = write_at c.head bytes c.buffer;
      head = c.head + length bytes;
      status = saved_message;
    })
    else none

-- the error that a failed send stands for
abbrev pub send_error : Errno → Error
send_error again = would_block
send_error reset = client_connection_closed
send_error Errno.pipe = send_to_client
send_error Errno.other = send_to_client

abbrev pub recv_error : Errno → Error
recv_error again = would_block
recv_error reset = receive_from_client
recv_error Errno.pipe = receive_from_client
recv_error Errno.other = receive_from_client

-- what a send leaves of the connection
abbrev pub after_send : Option Errno → ℕ → Connection → Option Error × Connection
after_send none start c = (none, cleared c)
after_send (some e) start c =
    (some (send_error e), record c { tail = start; status = partial_send })

unfoldable pub send : Connection → Socket → Option (Option Error × Connection × Socket)
send c sk =
    if is_open c && may_send c.status
    then (let r = send_range sk.answers c.buffer c.tail c.head in
        let (e, c') = after_send r.error r.start c in
        some (e, c', record sk { answers = r.answers; out = sk.out ++ r.out }))
    else none

-- the bytes that were asked for, or an error
pub data Delivery : Type 0 where
  bytes : List ℕ → Delivery
  refused : Error → Delivery

-- `head` and the status that a receive starts with
abbrev pub expecting : ℕ → Connection → Connection
expecting n c = if is_clear c.status then record c { head = n; status = partial_receive } else c

abbrev pub after_receive : ReceiveStatus → ℕ → Connection → Delivery × Connection
after_receive success start c = (bytes (take c.head c.buffer), cleared c)
after_receive connection_closed start c =
    (refused client_connection_closed, record c { tail = start })
after_receive (error e) start c = (refused (recv_error e), record c { tail = start })

unfoldable pub receive : ℕ → Connection → Socket → Option (Delivery × Connection × Socket)
receive n c sk =
    if is_open c && may_receive n c
    then (let c₁ = expecting n c in
        let r = recv_range sk.answers sk.pending c₁.buffer c₁.tail c₁.head in
        let (d, c') = after_receive r.status r.start (record c₁ { buffer = r.buffer }) in
        some (d, c', record sk { answers = r.answers; pending = r.pending }))
    else none
