-- ===== src/Payjoin.antt =====
-- lib/core/src/payjoin: how the inputs of a payjoin transaction are chosen.
pub mod Fee
pub mod Select
pub mod Range
pub mod Amounts
pub mod Asset
pub mod Inner
pub mod Validate
