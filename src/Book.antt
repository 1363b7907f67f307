-- ===== src/Book.antt =====
-- The order book of includes/order-book and src/order-book: its map, its pool of orders, its two sets
-- of prices, and the state that they make up.
pub mod HashMap
pub mod OrderPool
pub mod PriceSet
pub mod State
mod Tests
