-- ===== src/Receive/Handler/Blocks.antt =====
-- lib/core/src/receive_swap.rs: what the handler does at each new block.
use breez_sdk_liquid.Base.{
  ℕ, String, Bool, true, ◌&&◌, Option, some, none, List, [], ◌∷◌, is_none, is_some, filter,
}
use breez_sdk_liquid.Base.Result.{ok_or}
use breez_sdk_liquid.Base.Exec.{done, lift, attempt, gets, ◌>>=◌, ◌>>◌}
use breez_sdk_liquid.Model.{ReceiveSwap}
use breez_sdk_liquid.Model.Errors.{generic}
use breez_sdk_liquid.Receive.Store.{Db, Action, list_ongoing_receive_swaps}
use breez_sdk_liquid.Receive.Handler.{Services, from_any, claim}
use breez_sdk_liquid.Receive.Handler.Lockup.{verify_lockup_tx_status}
use breez_sdk_liquid.Receive.Handler.Status.{check_amount}

module _ (services : Services) where
  -- Nothing is looked for while the swap has no lockup.
  unfoldable pub claim_confirmed_lockup : ReceiveSwap → Option String → Action (Unit {0})
  claim_confirmed_lockup swap none = done tt
  claim_confirmed_lockup swap (some tx_id) = do
    found ← from_any (services.get_transaction_hex tx_id)
    tx_hex ← lift (ok_or found generic)
    lockup_tx ← from_any (verify_lockup_tx_status services swap tx_id tx_hex true)
    check_amount services swap.id swap lockup_tx
    claim services swap.id

  -- Errors are logged, and the next swap is tried.
  unfoldable pub claim_all : List ReceiveSwap → Action (Unit {0})
  claim_all [] = done tt
  claim_all (swap ∷ swaps) = do
    result ← attempt (claim_confirmed_lockup swap swap.lockup_tx_id)
    claim_all swaps

  abbrev pub awaits_claim : ReceiveSwap → Bool
  awaits_claim s = is_some s.lockup_tx_id && is_none s.claim_tx_id

  unfoldable pub claim_confirmed_lockups : ℕ → Action (Unit {0})
  claim_confirmed_lockups height = do
    swaps ← gets (λ (db : Db). filter awaits_claim (list_ongoing_receive_swaps db.swaps))
    claim_all swaps

  unfoldable pub on_liquid_block : ℕ → Action (Unit {0})
  on_liquid_block height = do result ← attempt (claim_confirmed_lockups height); done tt
