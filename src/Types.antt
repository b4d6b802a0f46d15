-- ===== src/Types.antt =====
-- Package `types` (types/): addresses, destinations, funds.
pub mod Destination
pub mod Funds
