-- ===== src/Outcome.antt =====
-- Package `outcome` (channel/state/outcome/): how funds are dispersed when a channel closes.
pub mod Allocation
pub mod Exit
pub mod Transfer
