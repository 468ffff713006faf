-- ===== src/Recover/Send/Update.antt =====
-- What the update of a send swap keeps.
use breez_sdk_liquid.Base.{String, Bool, true, false, ℕ, ◌≡◌, ◌⊎◌, arith, some, cleared}
use breez_sdk_liquid.Base.Result.{ok}
use breez_sdk_liquid.Model.{SendSwap}
use breez_sdk_liquid.Recover.Send.{
  RecoveredOnchainDataSend, update_swap, should_skip_recovery, is_expired_at,
}
use breez_sdk_liquid.Utils.{InvoiceLib, verify_payment_hash}

module _ (lib : InvoiceLib) (s : SendSwap) (d : RecoveredOnchainDataSend) (height : ℕ) where
  -- Within the grace period a lockup or refund transaction that the swap knows of is never
  -- forgotten.
  pub send_grace_keeps_txs :
      let s' = (update_swap lib s d height true).0 in
      (cleared s.lockup_tx_id s'.lockup_tx_id ≡ false)
      × (cleared s.refund_tx_id s'.refund_tx_id ≡ false)
  unfolding update_swap should_skip_recovery
  send_grace_keeps_txs = ground arith

  -- A preimage is stored only if it fits the swap's invoice.
  pub send_preimage_verified :
      (is_within_grace_period : Bool) {p : String}
      → (update_swap lib s d height is_within_grace_period).0.preimage ≡ some p
      → (s.preimage ≡ some p) ⊎ (verify_payment_hash lib p s.invoice ≡ ok tt)
  unfolding update_swap
  send_preimage_verified g h = ground arith

  -- Updating once more with the same data changes nothing.
  pub send_update_idempotent :
      (g : Bool)
      → update_swap lib (update_swap lib s d height g).0 d height g ≡ update_swap lib s d height g
  unfolding update_swap should_skip_recovery is_expired_at
  send_update_idempotent g = ground arith
