-- ===== src/Receive/Moves/Status.antt =====
-- Status updates and new blocks move the rows of receive swaps only as `Moves` allows.
use breez_sdk_liquid.Base.{ℕ, String, Option, some, none, List, [], ◌∷◌, refl, inl, inr}
use breez_sdk_liquid.Base.Result.{Result, ok, err, Result-cases}
use breez_sdk_liquid.Model.{ReceiveSwap}
use breez_sdk_liquid.Model.Errors.{PaymentError, AnyError}
use breez_sdk_liquid.Persist.Rows.{Rows, IsValid}
use breez_sdk_liquid.Persist.Sound as Any
use breez_sdk_liquid.Chain.Handler.Check.{TransactionInfo}
use breez_sdk_liquid.Chain.Handler.Status.{SwapStatus}
use breez_sdk_liquid.Receive.Store.{Db, Action, schema}
use breez_sdk_liquid.Receive.Handler.{Services, LockupTx}
use breez_sdk_liquid.Receive.Handler.Status.{
  RevSwapStates, broadcast_lockup, or_seen, after_amount, try_claim, on_expired, on_mempool,
  claim_confirmed, on_confirmed, with_transaction, on_state, on_new_status,
}
use breez_sdk_liquid.Receive.Handler.Blocks.{
  claim_confirmed_lockup, claim_all, claim_confirmed_lockups, on_liquid_block,
}
use breez_sdk_liquid.Receive.Moves.{Moves, motion, rows_of, Sound}
use breez_sdk_liquid.Receive.Moves.Handler.{handler_rules}
use breez_sdk_liquid.Receive.Moves.Claim.{claim-Sound}

module _ (services : Services) where
  broadcast_lockup-Sound : (tx : LockupTx) → Sound services.table (broadcast_lockup services tx)
  unfolding broadcast_lockup
  broadcast_lockup-Sound tx = elim (Result-cases (services.lockup_broadcast tx)) [
    | inl (text, e) ↦
        Any.unchanged-Sound rows_of _ (motion services.table) _
          (λ db. rw (e, broadcast_lockup) refl)
    | inr (tx_id, e) ↦
        Any.unchanged-Sound rows_of _ (motion services.table) _
          (λ db. rw (e, broadcast_lockup) refl)
  ]

  or_seen-Sound :
      (swap : ReceiveSwap) (tx_id tx_hex : String) (result : Result PaymentError String)
      → Sound services.table (or_seen services swap tx_id tx_hex result)
  unfolding or_seen
  or_seen-Sound swap tx_id tx_hex (ok _) = search handler_rules
  or_seen-Sound swap tx_id tx_hex (err failure) = search handler_rules

  after_amount-Sound :
      (id : String) (result : Result AnyError (Unit {0}))
      → Sound services.table (after_amount services id result)
  unfolding after_amount
  after_amount-Sound id (ok _) = search handler_rules
  after_amount-Sound id (err failure) = search handler_rules

  try_claim-Sound : (id : String) → Sound services.table (try_claim services id)
  unfolding try_claim
  try_claim-Sound id = search (handler_rules, claim-Sound)

  on_expired-Sound :
      (id : String) (mrh : Option String) → Sound services.table (on_expired services id mrh)
  unfolding on_expired
  on_expired-Sound id none = search handler_rules
  on_expired-Sound id (some mrh) = search handler_rules

  ruleset status_rules = (
    handler_rules, broadcast_lockup-Sound, or_seen-Sound, after_amount-Sound, try_claim-Sound,
    on_expired-Sound, claim-Sound,
  )

  on_mempool-Sound :
      (id : String) (swap : ReceiveSwap) (t : TransactionInfo)
      → Sound services.table (on_mempool services id swap t)
  unfolding on_mempool
  on_mempool-Sound id swap t = search status_rules depth 30

  claim_confirmed-Sound :
      (id : String) (swap : ReceiveSwap) (claim_tx_id : Option String)
      → Sound services.table (claim_confirmed services id swap claim_tx_id)
  unfolding claim_confirmed
  claim_confirmed-Sound id swap none = search status_rules
  claim_confirmed-Sound id swap (some claim_tx_id) = search status_rules

  on_confirmed-Sound :
      (id : String) (swap : ReceiveSwap) (t : TransactionInfo)
      → Sound services.table (on_confirmed services id swap t)
  unfolding on_confirmed
  on_confirmed-Sound id swap t = search (status_rules, claim_confirmed-Sound) depth 30

  with_transaction-Sound :
      (t : Option TransactionInfo) (next : TransactionInfo → Action (Unit {0}))
      → ((t : TransactionInfo) → Sound services.table (next t))
      → Sound services.table (with_transaction services t next)
  unfolding with_transaction
  with_transaction-Sound none next h = search handler_rules
  with_transaction-Sound (some t) next h = h t

  on_state-Sound :
      (u : SwapStatus) (swap : ReceiveSwap) (state : RevSwapStates)
      → Sound services.table (on_state services u swap state)
  unfolding on_state
  on_state-Sound u swap RevSwapStates.swap_expired = on_expired-Sound u.id swap.mrh_tx_id
  on_state-Sound u swap RevSwapStates.invoice_expired = on_expired-Sound u.id swap.mrh_tx_id
  on_state-Sound u swap RevSwapStates.transaction_failed = on_expired-Sound u.id swap.mrh_tx_id
  on_state-Sound u swap RevSwapStates.transaction_refunded = on_expired-Sound u.id swap.mrh_tx_id
  on_state-Sound u swap RevSwapStates.transaction_mempool =
      with_transaction-Sound u.transaction _ (on_mempool-Sound u.id swap)
  on_state-Sound u swap RevSwapStates.transaction_confirmed =
      with_transaction-Sound u.transaction _ (on_confirmed-Sound u.id swap)
  on_state-Sound u swap (RevSwapStates.unhandled status) = search handler_rules

  on_new_status-Sound :
      (parse : String → Option RevSwapStates) (u : SwapStatus)
      → Sound services.table (on_new_status services parse u)
  unfolding on_new_status
  on_new_status-Sound parse u = search (handler_rules, on_state-Sound) depth 20

  confirmed_lockup-Sound :
      (swap : ReceiveSwap) (tx_id : Option String)
      → Sound services.table (claim_confirmed_lockup services swap tx_id)
  unfolding claim_confirmed_lockup
  confirmed_lockup-Sound swap none = search handler_rules
  confirmed_lockup-Sound swap (some tx_id) = search status_rules depth 20

  claim_all-Sound : (swaps : List ReceiveSwap) → Sound services.table (claim_all services swaps)
  unfolding claim_all
  claim_all-Sound [] = search handler_rules
  claim_all-Sound (swap ∷ swaps) =
      Any.bind-Sound rows_of _ (motion services.table) _ _
        (search (handler_rules, confirmed_lockup-Sound)) (λ result. claim_all-Sound swaps)

  on_liquid_block-Sound : (height : ℕ) → Sound services.table (on_liquid_block services height)
  unfolding on_liquid_block claim_confirmed_lockups
  on_liquid_block-Sound height = search (handler_rules, claim_all-Sound) depth 20

  -- A status update of the swapper for a receive swap and a new block, whatever fails on the way,
  -- move each row along the life cycle only: its id, its invoice and its amounts stay, and a known
  -- lockup or direct payment is never overwritten, in a table whose ids are unique.
  pub receive_handler-Moves :
      (parse : String → Option RevSwapStates) (u : SwapStatus) (height : ℕ) (db : Db)
      → IsValid (schema services.table) db.swaps
      → Rows Moves db.swaps (on_new_status services parse u db).1.swaps
        × Rows Moves db.swaps (on_liquid_block services height db).1.swaps
  receive_handler-Moves parse u height db v =
      ((on_new_status-Sound parse u).rows db v, (on_liquid_block-Sound height).rows db v)
