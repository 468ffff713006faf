-- ===== src/Receive/Safety.antt =====
-- What the handler of receive swaps promises about claims and lockups.
pub mod Claimed
pub mod Claim
pub mod Quiet
pub mod Amount
