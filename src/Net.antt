-- ===== src/Net.antt =====
-- src/utils/network-utils.cpp: `send_range` and `recv_range`, the loops round `::send` and `::recv`.
-- What the system answers to each call is an argument, a list with an answer for each call to come.
-- A send answers with a number of bytes that it took, no more than were offered. A receive answers
-- with a number of bytes that it gives, no more than there is room for or than are pending, and no
-- byte means that the peer has closed the connection. After the last answer a call would block.
pub mod Ranges
pub mod Willing
use hft_architecture.Base.{
  ℕ, ◌+◌, ◌-◌, min, Option, none, some, List, [], ◌∷◌, ◌++◌, ltb, ◌==◌, if◌then◌else◌, length, take,
  drop,
}

-- the values of `errno` that the program tells apart
pub data Errno : Type 0 where
  again reset pipe other : Errno

-- a number of bytes, or -1 with the value of `errno`
pub data Answer : Type 0 where
  took : ℕ → Answer
  failed : Errno → Answer

-- the bytes `from` up to `to` of a buffer, and a buffer written at `at`
abbrev pub slice : ℕ → ℕ → List ℕ → List ℕ
slice from to buffer = take (to - from) (drop from buffer)

abbrev pub write_at : ℕ → List ℕ → List ℕ → List ℕ
write_at at bytes buffer = take at buffer ++ (bytes ++ drop (at + length bytes) buffer)

-- whether it ended well, `start` after it, the bytes that went out, and the answers left
pub record Sent : Type 0 where
  pub error : Option Errno
  pub start : ℕ
  pub out : List ℕ
  pub answers : List Answer

-- a call that took `n` bytes, and those after it
abbrev pub sent_more : ℕ → ℕ → List ℕ → Sent → Sent
sent_more start n buffer rest = record rest { out = slice start (start + n) buffer ++ rest.out }

unfoldable pub send_range : List Answer → List ℕ → ℕ → ℕ → Sent
send_range [] buffer start end = record {
  error = if ltb start end then some again else none;
  start = start;
  out = [];
  answers = [];
}
send_range (failed e ∷ answers) buffer start end =
    if ltb start end
    then record { error = some e; start = start; out = []; answers = answers }
    else record { error = none; start = start; out = []; answers = failed e ∷ answers }
send_range (took k ∷ answers) buffer start end =
    let n = min k (end - start) in
    let rest = send_range answers buffer (start + n) end in
    if ltb start end
    then (if n == 0
        then record { error = some pipe; start = start; out = []; answers = answers }
        else sent_more start n buffer rest)
    else record { error = none; start = start; out = []; answers = took k ∷ answers }

pub data ReceiveStatus : Type 0 where
  success connection_closed : ReceiveStatus
  error : Errno → ReceiveStatus

pub record Received : Type 0 where
  pub status : ReceiveStatus
  pub start : ℕ
  pub buffer : List ℕ
  pub pending : List ℕ
  pub answers : List Answer

unfoldable pub recv_range : List Answer → List ℕ → List ℕ → ℕ → ℕ → Received
recv_range [] pending buffer start end = record {
  status = if ltb start end then error again else success;
  start = start;
  buffer = buffer;
  pending = pending;
  answers = [];
}
recv_range (failed e ∷ answers) pending buffer start end =
    if ltb start end
    then record {
      status = error e;
      start = start;
      buffer = buffer;
      pending = pending;
      answers = answers;
    }
    else record {
      status = success;
      start = start;
      buffer = buffer;
      pending = pending;
      answers = failed e ∷ answers;
    }
recv_range (took k ∷ answers) pending buffer start end =
    let n = min (min k (end - start)) (length pending) in
    let rest =
      recv_range answers (drop n pending) (write_at start (take n pending) buffer) (start + n)
        end in
    if ltb start end
    then (if n == 0
        then record {
          status = connection_closed;
          start = start;
          buffer = buffer;
          pending = pending;
          answers = answers;
        }
        else rest)
    else record {
      status = success;
      start = start;
      buffer = buffer;
      pending = pending;
      answers = took k ∷ answers;
    }
