-- ===== src/Receive.antt =====
-- lib/core/src/receive_swap.rs and lib/core/src/persist/receive.rs: reverse swaps, used to receive.
pub mod Transition
pub mod Store
pub mod Handler
pub mod Moves
pub mod Safety
pub mod Refines
