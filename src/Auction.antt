-- ===== src/Auction.antt =====
-- packages/auction/src: the operator's side of a quote auction.
pub mod Executor
pub mod Round
pub mod Audit
pub mod Auctioneer
mod Tests
