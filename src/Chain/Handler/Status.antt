-- ===== src/Chain/Handler/Status.antt =====
-- lib/core/src/chain_swap.rs: what a status update of the swapper does to a chain swap.
use breez_sdk_liquid.Base.{String, Bool, true, false, not, Option, some, none, ◌==◌}
use breez_sdk_liquid.Base.Result.{Result, ok, err, to_option}
use breez_sdk_liquid.Base.Exec.{done, fail, attempt, when, ◌>>=◌, ◌>>◌}
use breez_sdk_liquid.Model.{
  ChainSwap, Direction, incoming, outgoing, PaymentState, pending, failed, refundable,
  refund_pending,
}
use breez_sdk_liquid.Model.Errors.{PaymentError, generic}
use breez_sdk_liquid.Chain.Store.{
  Action, to_state_only, update_actual_payer_amount, update_chain_swap_accept_zero_conf,
}
use breez_sdk_liquid.Chain.Handler.{
  Services, from_any, fetch_chain_swap_by_id, update_swap_info, insert_payment, lockup_funds, claim,
}
use breez_sdk_liquid.Chain.Handler.Check.{
  TransactionInfo, verify_server_lockup_tx, fetch_incoming_swap_actual_payer_amount,
}
use breez_sdk_liquid.Chain.Handler.Verify.{verify_user_lockup_tx, user_lockup_tx_exists}
use breez_sdk_liquid.Chain.Handler.Fees.{handle_amountless_update}
use breez_sdk_liquid.Chain.Handler.Refund.{refund_outgoing_swap}

-- The swapper's library: the states that the handler tells apart.
pub data ChainSwapStates : Type 0 where
  created transaction_mempool transaction_confirmed : ChainSwapStates
  transaction_server_mempool transaction_server_confirmed : ChainSwapStates
  transaction_failed transaction_lockup_failed transaction_refunded swap_expired : ChainSwapStates
  unhandled : String → ChainSwapStates

-- The swapper's library: a status update.
pub record SwapStatus : Type 0 where
  pub id : String
  pub status : String
  pub zero_conf_rejected : Option Bool
  pub transaction : Option TransactionInfo

module _ (services : Services) where
  abbrev pub seen_user_lockup : String → TransactionInfo → Action (Unit {0})
  seen_user_lockup id transaction =
      update_swap_info services
        (record (to_state_only id pending) { user_lockup_tx_id = some transaction.id })

  abbrev pub seen_server_lockup : String → TransactionInfo → Action (Unit {0})
  seen_server_lockup id transaction =
      update_swap_info services
        (record (to_state_only id pending) { server_lockup_tx_id = some transaction.id })

  unfoldable pub on_zero_conf : String → Option Bool → Action (Unit {0})
  on_zero_conf id none = done tt
  on_zero_conf id (some rejected) =
      update_chain_swap_accept_zero_conf services.table id (not rejected)

  -- The user's lockup is in the mempool or confirmed.
  unfoldable pub on_user_lockup :
      String → ChainSwap → Direction → Option TransactionInfo → Action (Unit {0})
  on_user_lockup id swap direction none = done tt
  on_user_lockup id swap outgoing (some transaction) = seen_user_lockup id transaction
  on_user_lockup id swap incoming (some transaction) = do
    amount ← from_any (fetch_incoming_swap_actual_payer_amount services swap)
    update_actual_payer_amount services.table swap.id amount
    seen_user_lockup id transaction

  -- The server's lockup is in the mempool: it is claimed if the swap accepts it unconfirmed.
  unfoldable pub on_server_mempool : String → ChainSwap → TransactionInfo → Action (Unit {0})
  on_server_mempool id swap transaction = do
    verify_user_lockup_tx services swap
    from_any (verify_server_lockup_tx services swap transaction false)
    seen_server_lockup id transaction
    when swap.accept_zero_conf (claim services id)

  -- The server's lockup is confirmed: an incoming swap knows of it even if it is not good.
  unfoldable pub on_server_confirmed :
      String → ChainSwap → Direction → TransactionInfo → Action (Unit {0})
  on_server_confirmed id swap outgoing transaction = do
    verify_user_lockup_tx services swap
    from_any (verify_server_lockup_tx services swap transaction true)
    seen_server_lockup id transaction
    claim services id
  on_server_confirmed id swap incoming transaction = do
    verify_user_lockup_tx services swap
    seen_server_lockup id transaction
    from_any (verify_server_lockup_tx services swap transaction true)
    claim services id

  -- A swap that is claimed already is left alone; an update must name its transaction.
  unfoldable pub unless_claimed :
      Option String
      → Option TransactionInfo
      → (TransactionInfo → Action (Unit {0}))
      → Action (Unit {0})
  unless_claimed (some claim_tx_id) transaction next = done tt
  unless_claimed none none next = fail generic
  unless_claimed none (some transaction) next = next transaction

  unfoldable pub after_lockup_check : String → Bool → Action (Unit {0})
  after_lockup_check id true = update_swap_info services (to_state_only id refundable)
  after_lockup_check id false = update_swap_info services (to_state_only id failed)

  -- An incoming swap that can not go on: the funds can be refunded, if there are any.
  unfoldable pub on_incoming_unrecoverable : String → ChainSwap → Option String → Action (Unit {0})
  on_incoming_unrecoverable id swap (some refund_tx_id) = done tt
  on_incoming_unrecoverable id swap none = do
    exists ← user_lockup_tx_exists services swap
    after_lockup_check id exists

  -- An error in handling the quote is logged, and the swap counts as one that can not go on.
  unfoldable pub after_amountless :
      String → ChainSwap → Result PaymentError (Unit {0}) → Action (Unit {0})
  after_amountless id swap (ok _) = done tt
  after_amountless id swap (err failure) = on_incoming_unrecoverable id swap swap.refund_tx_id

  -- A swap without an amount gets to the failed lockup when the user locks up funds.
  unfoldable pub on_incoming_failed : String → ChainSwap → Bool → Action (Unit {0})
  on_incoming_failed id swap false = on_incoming_unrecoverable id swap swap.refund_tx_id
  on_incoming_failed id swap true = do
    result ← attempt (handle_amountless_update services swap)
    after_amountless id swap result

  unfoldable pub on_incoming_state : SwapStatus → ChainSwap → ChainSwapStates → Action (Unit {0})
  on_incoming_state u swap ChainSwapStates.created = done tt
  on_incoming_state u swap ChainSwapStates.transaction_mempool = do
    on_zero_conf u.id u.zero_conf_rejected
    on_user_lockup u.id swap incoming u.transaction
  on_incoming_state u swap ChainSwapStates.transaction_confirmed = do
    on_zero_conf u.id u.zero_conf_rejected
    on_user_lockup u.id swap incoming u.transaction
  on_incoming_state u swap ChainSwapStates.transaction_server_mempool =
      unless_claimed swap.claim_tx_id u.transaction (on_server_mempool u.id swap)
  on_incoming_state u swap ChainSwapStates.transaction_server_confirmed =
      unless_claimed swap.claim_tx_id u.transaction (on_server_confirmed u.id swap incoming)
  on_incoming_state u swap ChainSwapStates.transaction_failed = on_incoming_failed u.id swap false
  on_incoming_state u swap ChainSwapStates.transaction_lockup_failed =
      on_incoming_failed u.id swap (swap.payer_amount_sat == 0)
  on_incoming_state u swap ChainSwapStates.transaction_refunded = on_incoming_failed u.id swap false
  on_incoming_state u swap ChainSwapStates.swap_expired = on_incoming_failed u.id swap false
  on_incoming_state u swap (ChainSwapStates.unhandled status) = done tt

  unfoldable pub lockup_and_record : String → ChainSwap → Action (Unit {0})
  lockup_and_record id swap = do
    response ← from_any (services.get_boltz_create_response swap)
    lockup_tx ← lockup_funds services id response
    insert_payment lockup_tx.txid response.lockup_amount
    update_swap_info services
        (record (to_state_only id pending) { user_lockup_tx_id = some lockup_tx.txid })

  -- A swap that timed out, or that has a lockup, is not locked up.
  unfoldable pub on_created : String → ChainSwap → PaymentState → Option String → Action (Unit {0})
  on_created id swap PaymentState.timed_out lockup_tx_id = done tt
  on_created id swap _ (some lockup_tx_id) = done tt
  on_created id swap _ none = lockup_and_record id swap

  -- An outgoing swap that can not go on: its lockup is refunded, or it fails if there is none.
  unfoldable pub on_outgoing_unrecoverable :
      String → ChainSwap → Option String → Option String → Action (Unit {0})
  on_outgoing_unrecoverable id swap (some refund_tx_id) lockup_tx_id = done tt
  on_outgoing_unrecoverable id swap none none = update_swap_info services (to_state_only id failed)
  on_outgoing_unrecoverable id swap none (some lockup_tx_id) = do
    result ← attempt (refund_outgoing_swap services swap true)
    update_swap_info services
        (record (to_state_only id refund_pending) { refund_tx_id = to_option result })

  unfoldable pub on_outgoing_state : SwapStatus → ChainSwap → ChainSwapStates → Action (Unit {0})
  on_outgoing_state u swap ChainSwapStates.created =
      on_created u.id swap swap.state swap.user_lockup_tx_id
  on_outgoing_state u swap ChainSwapStates.transaction_mempool = do
    on_zero_conf u.id u.zero_conf_rejected
    on_user_lockup u.id swap outgoing u.transaction
  on_outgoing_state u swap ChainSwapStates.transaction_confirmed = do
    on_zero_conf u.id u.zero_conf_rejected
    on_user_lockup u.id swap outgoing u.transaction
  on_outgoing_state u swap ChainSwapStates.transaction_server_mempool =
      unless_claimed swap.claim_tx_id u.transaction (on_server_mempool u.id swap)
  on_outgoing_state u swap ChainSwapStates.transaction_server_confirmed =
      unless_claimed swap.claim_tx_id u.transaction (on_server_confirmed u.id swap outgoing)
  on_outgoing_state u swap (ChainSwapStates.unhandled status) = done tt
  on_outgoing_state u swap _ =
      on_outgoing_unrecoverable u.id swap swap.refund_tx_id swap.user_lockup_tx_id

  unfoldable pub on_state :
      SwapStatus → ChainSwap → Direction → Option ChainSwapStates → Action (Unit {0})
  on_state u swap direction none = fail generic
  on_state u swap incoming (some state) = on_incoming_state u swap state
  on_state u swap outgoing (some state) = on_outgoing_state u swap state

  unfoldable pub on_new_status : (String → Option ChainSwapStates) → SwapStatus → Action (Unit {0})
  on_new_status parse u = do
    swap ← fetch_chain_swap_by_id services u.id
    on_state u swap swap.direction (parse u.status)
