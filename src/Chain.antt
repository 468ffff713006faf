-- ===== src/Chain.antt =====
-- lib/core/src/chain_swap.rs and lib/core/src/persist/chain.rs: swaps between Bitcoin and Liquid.
pub mod Transition
pub mod Amountless
pub mod Store
pub mod Handler
pub mod Moves
pub mod Safety
