-- ===== src/Strategy.antt =====
-- kimp_arb_cpp/{include/kimp,src}/strategy: prices, premiums, positions, and the choice of entries.
pub mod Quote
pub mod Premium
pub mod SimdPremium
pub mod PriceCache
pub mod Engine
pub mod PositionTracker
pub mod CapitalTracker
pub mod EntrySelection
