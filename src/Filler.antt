-- ===== src/Filler.antt =====
-- packages/beta-filler/src: the pure decisions of the filler that trades its own inventory.
pub mod Budget
pub mod Policy
pub mod Recheck
mod Tests
