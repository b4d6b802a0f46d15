-- ===== src/Tests.antt =====
-- The development on concrete inputs: runs of the definitions, and each theorem at one input.
pub mod Data
pub mod Consensus
pub mod Vars
pub mod Outcome
pub mod Channel
pub mod States
pub mod Session
pub mod DirectFund
pub mod DirectDefund
pub mod VirtualFund
pub mod VirtualDefund
pub mod Store
pub mod Engine
