-- ===== src/Handler.antt =====
-- The market data handler: includes/market-data-handler, src/market-data-handler, and the reorder
-- buffer of includes/utils/reorder-buffer.hpp that its receivers share.
pub mod Gap
pub mod Reorder
pub mod Publisher
pub mod Client
mod Tests
