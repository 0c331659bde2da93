-- ===== src/Orderbook/Effects.antt =====
-- What each operation of the book does to the orders that it holds: the book seen as the order that
-- each hash names.
pub mod Evictions
pub mod Chain
pub mod Retired
pub mod Cancels
pub mod Strikes
pub mod Admissions
pub mod Replaces
pub mod Cancelled
