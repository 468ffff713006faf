-- ===== src/Send.antt =====
-- lib/core/src/send_swap.rs and lib/core/src/persist/send.rs: submarine swaps, used to send.
pub mod Transition
pub mod Store
pub mod Handler
pub mod Moves
pub mod Safety
