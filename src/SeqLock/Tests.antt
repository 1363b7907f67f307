-- ===== src/SeqLock/Tests.antt =====
-- A sequence lock at concrete values.
use hft_architecture.Base.{ℕ, ◌≡◌, none, some, arith}
use hft_architecture.SeqLock.{SeqLock, write, wait_read_next_round, read_once}

abbrev third : SeqLock ℕ
third = record { generation = 2; value = 30 }

read_once_example :
    let (out, seen') = wait_read_next_round (write 40 third) 1 in
    (out ≡ some 40) × (seen' ≡ 3) × (wait_read_next_round (write 40 third) seen' ≡ (none, seen'))
read_once_example = read_once 40 third 1 (omega arith) (omega arith)
