-- ===== src/Sdk.antt =====
-- packages/sdk/src: the client library that mirrors the settlement's price and fill arithmetic.
pub mod Order
pub mod Timing
pub mod Packed
pub mod Oco
pub mod Amend
pub mod Permit
pub mod Conditions
pub mod Proportional
pub mod Pricing
pub mod Filling
pub mod Selection
pub mod Bid
pub mod Quote
pub mod FeeSplit
pub mod Priority
pub mod Funding
mod Tests
