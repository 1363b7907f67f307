-- ===== src/Exchange.antt =====
-- The exchange: includes/exchange and src/exchange, with the cache of sent messages of
-- includes/utils/circular-cache.hpp and the container of includes/utils/random-container.hpp.
pub mod Simulator
pub mod Generator
pub mod Cache
pub mod RandomContainer
pub mod Clob
pub mod Connection
pub mod Retransmit
mod Tests
