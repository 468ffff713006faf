-- ===== src/Recover/Receive/Update.antt =====
-- What the update of a receive swap keeps.
use breez_sdk_liquid.Base.{Bool, true, false, ℕ, ◌≡◌, arith, cleared}
use breez_sdk_liquid.Model.{ReceiveSwap}
use breez_sdk_liquid.Recover.Receive.{
  RecoveredOnchainDataReceive, update_swap, should_skip_recovery,
}

module _ (s : ReceiveSwap) (d : RecoveredOnchainDataReceive) (height : ℕ) where
  -- Within the grace period a claim that the swap knows of is never forgotten.
  pub receive_grace_keeps_claim :
      let s' = (update_swap s d height true).0 in cleared s.claim_tx_id s'.claim_tx_id ≡ false
  unfolding update_swap should_skip_recovery
  receive_grace_keeps_claim = ground arith

  -- Updating once more with the same data changes nothing.
  pub receive_update_idempotent :
      (g : Bool) → update_swap (update_swap s d height g).0 d height g ≡ update_swap s d height g
  unfolding update_swap should_skip_recovery
  receive_update_idempotent g = ground arith
