-- ===== src/Receive/Handler/Status.antt =====
-- lib/core/src/receive_swap.rs: the status updates of the swapper for a receive swap.
use breez_sdk_liquid.Base.{
  ℕ, String, Bool, true, false, not, ◌&&◌, Option, some, none, ◌∷◌, is_none, unwrap_or, ltb, any,
}
use breez_sdk_liquid.Base.Result.{Result, ok, err, ok_or}
use breez_sdk_liquid.Base.Exec.{done, fail, lift, attempt, when, guard, ◌>>=◌, ◌>>◌}
use breez_sdk_liquid.Model.{ReceiveSwap, pending, failed}
use breez_sdk_liquid.Model.Errors.{PaymentError, AnyError, generic}
use breez_sdk_liquid.Chain.Handler.Check.{TransactionInfo}
use breez_sdk_liquid.Chain.Handler.Status.{SwapStatus}
use breez_sdk_liquid.Receive.Store.{Action}
use breez_sdk_liquid.Receive.Handler.{
  Services, LockupTx, from_any, fetch_receive_swap_by_id, update_swap_info, claim,
}
use breez_sdk_liquid.Receive.Handler.Lockup.{verify_lockup_tx_status, verify_lockup_tx_amount}

abbrev pub default_zero_conf_max_sat : ℕ
default_zero_conf_max_sat = 1000000

-- The swapper's library: the states that the handler tells apart.
pub data RevSwapStates : Type 0 where
  swap_expired invoice_expired transaction_failed transaction_refunded : RevSwapStates
  transaction_mempool transaction_confirmed : RevSwapStates
  unhandled : String → RevSwapStates

module _ (services : Services) where
  abbrev pub max_amount_sat : ℕ
  max_amount_sat = unwrap_or services.zero_conf_max_amount_sat default_zero_conf_max_sat

  -- Whether an unconfirmed lockup is claimed: the amount is small, and it can not be replaced.
  unfoldable pub is_zero_conf : ReceiveSwap → LockupTx → Bool
  is_zero_conf swap lockup_tx =
      not (ltb max_amount_sat swap.receiver_amount_sat)
      && not (any (λ (rbf : Bool). rbf) lockup_tx.input_is_rbf)

  unfoldable pub broadcast_lockup : LockupTx → Action String
  broadcast_lockup tx db = elim (services.lockup_broadcast tx) [
    | err text ↦ (err generic, db)
    | ok tx_id ↦ (ok tx_id, record db { lockup_broadcasts = tx.txid ∷ db.lockup_broadcasts })
  ]

  -- A lockup that could not be broadcast has to be known to the chain service.
  unfoldable pub or_seen :
      ReceiveSwap → String → String → Result PaymentError String → Action (Unit {0})
  or_seen swap tx_id tx_hex (ok _) = done tt
  or_seen swap tx_id tx_hex (err failure) = do
    lockup_tx ← from_any (verify_lockup_tx_status services swap tx_id tx_hex false)
    done tt

  -- A lockup that does not pay enough makes the swap fail.
  unfoldable pub after_amount : String → Result AnyError (Unit {0}) → Action (Unit {0})
  after_amount id (ok _) = done tt
  after_amount id (err failure) = do
    update_swap_info services id failed none none none none
    fail generic

  abbrev pub check_amount : String → ReceiveSwap → LockupTx → Action (Unit {0})
  check_amount id swap lockup_tx = after_amount id (verify_lockup_tx_amount services swap lockup_tx)

  -- A claim that fails is only logged.
  unfoldable pub try_claim : String → Action (Unit {0})
  try_claim id = do result ← attempt (claim services id); done tt

  unfoldable pub on_expired : String → Option String → Action (Unit {0})
  on_expired id (some mrh_tx_id) = done tt
  on_expired id none = update_swap_info services id failed none none none none

  -- The lockup is in the mempool: it is broadcast too, and claimed if that is safe.
  unfoldable pub on_mempool : String → ReceiveSwap → TransactionInfo → Action (Unit {0})
  on_mempool id swap transaction = do
    guard (is_none swap.claim_tx_id) generic
    guard (is_none swap.mrh_tx_id) generic
    tx_hex ← lift (ok_or transaction.hex generic)
    lockup_tx ← from_any (services.deserialize_tx_hex tx_hex)
    broadcast ← attempt (broadcast_lockup lockup_tx)
    or_seen swap transaction.id tx_hex broadcast
    check_amount id swap lockup_tx
    update_swap_info services id pending none (some transaction.id) none none
    when (is_zero_conf swap lockup_tx) (try_claim id)

  unfoldable pub claim_confirmed : String → ReceiveSwap → Option String → Action (Unit {0})
  claim_confirmed id swap (some claim_tx_id) = done tt
  claim_confirmed id swap none = do
    update_swap_info services swap.id pending none none none none
    try_claim id

  unfoldable pub on_confirmed : String → ReceiveSwap → TransactionInfo → Action (Unit {0})
  on_confirmed id swap transaction = do
    guard (is_none swap.mrh_tx_id) generic
    tx_hex ← lift (ok_or transaction.hex generic)
    lockup_tx ← from_any (verify_lockup_tx_status services swap transaction.id tx_hex true)
    check_amount id swap lockup_tx
    claim_confirmed id swap swap.claim_tx_id

  -- An update must name its transaction.
  unfoldable pub with_transaction :
      Option TransactionInfo → (TransactionInfo → Action (Unit {0})) → Action (Unit {0})
  with_transaction none next = fail generic
  with_transaction (some transaction) next = next transaction

  unfoldable pub on_state : SwapStatus → ReceiveSwap → RevSwapStates → Action (Unit {0})
  on_state u swap RevSwapStates.swap_expired = on_expired u.id swap.mrh_tx_id
  on_state u swap RevSwapStates.invoice_expired = on_expired u.id swap.mrh_tx_id
  on_state u swap RevSwapStates.transaction_failed = on_expired u.id swap.mrh_tx_id
  on_state u swap RevSwapStates.transaction_refunded = on_expired u.id swap.mrh_tx_id
  on_state u swap RevSwapStates.transaction_mempool =
      with_transaction u.transaction (on_mempool u.id swap)
  on_state u swap RevSwapStates.transaction_confirmed =
      with_transaction u.transaction (on_confirmed u.id swap)
  on_state u swap (RevSwapStates.unhandled status) = done tt

  unfoldable pub on_new_status : (String → Option RevSwapStates) → SwapStatus → Action (Unit {0})
  on_new_status parse u = do
    swap_state ← lift (ok_or (parse u.status) generic)
    receive_swap ← fetch_receive_swap_by_id services u.id
    on_state u receive_swap swap_state
