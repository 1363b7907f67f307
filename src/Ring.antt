-- ===== src/Ring.antt =====
-- The ring buffers of includes/utils: SingleThreadRingBuffer, SharedRingBuffer and LazyRingBuffer.
-- All three keep two `size_t` cursors that only grow (and wrap at 2 ^ 64), and index the array by a
-- cursor modulo the capacity. `x & MASK` is `x % capacity`, since a capacity is a power of two.
pub mod Window
pub mod Queue
pub mod SingleThread
pub mod Shared
pub mod Lazy
mod Tests
