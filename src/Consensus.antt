-- ===== src/Consensus.antt =====
-- Package `consensus_channel` (channel/consensus_channel/): a running ledger channel.
pub mod Guarantee
pub mod LedgerOutcome
pub mod Proposal
pub mod Vars
pub mod Channel
pub mod Updates
pub mod Support
pub mod Serde
