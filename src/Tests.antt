-- ===== src/Tests.antt =====
-- The witnesses of the development's theorems, with the swaps and chains that they stand on.
mod Data
mod Amountless
mod Transitions
mod RecoverSwaps
mod RecoverChain
mod SendSwaps
mod ChainSwaps
mod ReceiveSwaps
mod Payjoin
mod SyncData
