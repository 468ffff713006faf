-- ===== src/Recover/ChainSend/Update.antt =====
-- What the update of an outgoing chain swap keeps.
use breez_sdk_liquid.Base.{Bool, true, false, ℕ, ◌≡◌, arith, cleared}
use breez_sdk_liquid.Model.{ChainSwap}
use breez_sdk_liquid.Recover.ChainSend.{
  RecoveredOnchainDataChainSend, update_swap, should_skip_recovery,
}

module _ (s : ChainSwap) (d : RecoveredOnchainDataChainSend)
    (liquid_height bitcoin_height : ℕ) where
  -- Within the grace period a lockup, refund or claim that the swap knows of is never forgotten.
  pub chain_send_grace_keeps_txs :
      let s' = (update_swap s d liquid_height bitcoin_height true).0 in
      (cleared s.user_lockup_tx_id s'.user_lockup_tx_id ≡ false)
      × (cleared s.refund_tx_id s'.refund_tx_id ≡ false)
      × (cleared s.claim_tx_id s'.claim_tx_id ≡ false)
  unfolding update_swap should_skip_recovery
  chain_send_grace_keeps_txs = ground arith

  -- Updating once more with the same data changes nothing.
  pub chain_send_update_idempotent :
      (g : Bool)
      → update_swap
          (update_swap s d liquid_height bitcoin_height g).0
          d
          liquid_height
          bitcoin_height
          g
        ≡ update_swap s d liquid_height bitcoin_height g
  unfolding update_swap should_skip_recovery
  chain_send_update_idempotent g = ground arith
