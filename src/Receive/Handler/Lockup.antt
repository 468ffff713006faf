-- ===== src/Receive/Handler/Lockup.antt =====
-- lib/core/src/receive_swap.rs: what the handler checks of the swapper's lockup.
use breez_sdk_liquid.Base.{ℕ, String, Bool, not, ltb, find, add_u64}
use breez_sdk_liquid.Base.Text.{str_eq}
use breez_sdk_liquid.Base.Result.{Result, ok_or, ensure, ◌>>=◌}
use breez_sdk_liquid.Model.{ReceiveSwap}
use breez_sdk_liquid.Model.Errors.{AnyError, anyhow}
use breez_sdk_liquid.Chain.Handler.{LiquidTxOut}
use breez_sdk_liquid.Receive.Handler.{Services, LockupTx}

unfoldable pub expected_lockup_amount : ReceiveSwap → ℕ
expected_lockup_amount swap = add_u64 swap.receiver_amount_sat swap.claim_fees_sat

module _ (services : Services) where
  unfoldable pub verify_lockup_tx_status :
      ReceiveSwap → String → String → Bool → Result AnyError LockupTx
  verify_lockup_tx_status swap tx_id tx_hex verify_confirmation = do
    script ← services.get_swap_script swap
    address ← script.script_pubkey
    services.verify_tx address tx_id tx_hex verify_confirmation

  -- The first output to the swap's script pays enough.
  unfoldable pub verify_lockup_tx_amount : ReceiveSwap → LockupTx → Result AnyError (Unit {0})
  verify_lockup_tx_amount swap lockup_tx = do
    script ← services.get_swap_script swap
    address ← script.script_pubkey
    key ← services.get_blinding_key swap
    blinding_key ← ok_or key anyhow
    tx_out ←
        ok_or (find (λ (out : LiquidTxOut). str_eq out.script_pubkey address) lockup_tx.output)
          anyhow
    lockup_amount_sat ← tx_out.unblind blinding_key
    ensure (not (ltb lockup_amount_sat (expected_lockup_amount swap))) anyhow
