-- ===== src/Orderbook/Safety.antt =====
-- What holds of a book whatever it is told, by whom, and in which order.
pub mod Rooming
pub mod Admitting
pub mod Retracting
pub mod Sweeping
pub mod Reachable
