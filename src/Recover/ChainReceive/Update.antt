-- ===== src/Recover/ChainReceive/Update.antt =====
-- What the update of an incoming chain swap keeps.
use breez_sdk_liquid.Base.{String, Bool, true, false, ℕ, ◌≡◌, arith, cleared}
use breez_sdk_liquid.Base.Result.{Result}
use breez_sdk_liquid.Model.{ChainSwap}
use breez_sdk_liquid.Model.Errors.{AnyError}
use breez_sdk_liquid.Recover.ChainReceive.{
  RecoveredOnchainDataChainReceive, PairLimits, update_swap, should_skip_recovery,
}

module _ (pair_limits : String → Result AnyError PairLimits) (s : ChainSwap)
    (d : RecoveredOnchainDataChainReceive) (liquid_height bitcoin_height : ℕ) where
  -- Within the grace period a claim or refund that the swap knows of is never forgotten, whether
  -- or not the pair of the swap can be read.
  pub chain_receive_grace_keeps_txs :
      let s' = (update_swap pair_limits s d liquid_height bitcoin_height true).0 in
      (cleared s.claim_tx_id s'.claim_tx_id ≡ false)
      × (cleared s.refund_tx_id s'.refund_tx_id ≡ false)
  unfolding update_swap should_skip_recovery
  chain_receive_grace_keeps_txs = ground arith

  -- Updating once more with the same data changes nothing.
  pub chain_receive_update_idempotent :
      (g : Bool)
      → update_swap pair_limits
          (update_swap pair_limits s d liquid_height bitcoin_height g).0
          d
          liquid_height
          bitcoin_height
          g
        ≡ update_swap pair_limits s d liquid_height bitcoin_height g
  unfolding update_swap should_skip_recovery
  chain_receive_update_idempotent g = ground arith
