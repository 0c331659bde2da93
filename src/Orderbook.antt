-- ===== src/Orderbook.antt =====
-- packages/orderbook/src: one node's book of live orders.
pub mod Messages
pub mod Admission
pub mod Shelf
pub mod Graves
pub mod Book
pub mod Ingest
pub mod Events
pub mod Recheck
pub mod Query
pub mod Cancels
pub mod Summary
pub mod Safety
pub mod Effects
mod Tests
