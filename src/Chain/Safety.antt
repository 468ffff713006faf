-- ===== src/Chain/Safety.antt =====
-- What a chain swap's funds are safe from: a claim of a lockup that was not verified, a second
-- claim, and a quote that is too low.
pub mod User
pub mod Quiet
pub mod Unrecorded
pub mod Quote
pub mod Claimed
pub mod Claim
pub mod Lockup
