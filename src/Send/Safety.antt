-- ===== src/Send/Safety.antt =====
-- What the send swap handler guarantees about single calls.
pub mod Lockup
pub mod Refund
pub mod Version
