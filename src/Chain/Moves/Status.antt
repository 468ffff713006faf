-- ===== src/Chain/Moves/Status.antt =====
-- Whatever the swapper, the user and the chains bring about, the handler moves the rows of chain
-- swaps only as `Moves` allows.
use breez_sdk_liquid.Base.{ℕ, String, Bool, true, false, Option, some, none}
use breez_sdk_liquid.Base.Result.{Result, ok, err}
use breez_sdk_liquid.Model.{ChainSwap, Direction, incoming, outgoing, PaymentState, timed_out}
use breez_sdk_liquid.Model.Errors.{PaymentError}
use breez_sdk_liquid.Persist.Rows.{Rows, IsValid}
use breez_sdk_liquid.Chain.Store.{Db, Action, schema}
use breez_sdk_liquid.Chain.Handler.{Services}
use breez_sdk_liquid.Chain.Handler.Check.{TransactionInfo}
use breez_sdk_liquid.Chain.Handler.Refund.{refund_incoming_swap}
use breez_sdk_liquid.Chain.Handler.Status.{
  ChainSwapStates, SwapStatus, on_zero_conf, on_user_lockup, on_server_mempool, on_server_confirmed,
  unless_claimed, after_lockup_check, on_incoming_unrecoverable, after_amountless,
  on_incoming_failed, on_incoming_state, lockup_and_record, on_created, on_outgoing_unrecoverable,
  on_outgoing_state, on_state, on_new_status,
}
use breez_sdk_liquid.Chain.Handler.Blocks.{on_bitcoin_block, on_liquid_block}
use breez_sdk_liquid.Chain.Moves.{Moves}
use breez_sdk_liquid.Chain.Moves.Store.{Sound}
use breez_sdk_liquid.Chain.Moves.Handler.{handler_rules}
use breez_sdk_liquid.Chain.Moves.Claim.{claim-Sound, claim_pending-Sound}
use breez_sdk_liquid.Chain.Moves.Refund.{
  refund_incoming-Sound, refund_outgoing_swap-Sound, refund_outgoing-Sound,
}
use breez_sdk_liquid.Chain.Moves.Verify.{exists-Sound, verify_user_lockup-Sound, amountless-Sound}

ruleset status_rules = (
  handler_rules, claim-Sound, exists-Sound, verify_user_lockup-Sound, amountless-Sound,
  refund_outgoing_swap-Sound, claim_pending-Sound, refund_outgoing-Sound,
)

module _ (services : Services) where
  zero_conf-Sound :
      (id : String) (rejected : Option Bool)
      → Sound services.table (on_zero_conf services id rejected)
  unfolding on_zero_conf
  zero_conf-Sound id none = search handler_rules
  zero_conf-Sound id (some rejected) = search handler_rules

  user_lockup-Sound :
      (id : String) (swap : ChainSwap) (direction : Direction)
      (transaction : Option TransactionInfo)
      → Sound services.table (on_user_lockup services id swap direction transaction)
  unfolding on_user_lockup
  user_lockup-Sound id swap direction none = search handler_rules
  user_lockup-Sound id swap outgoing (some transaction) = search handler_rules
  user_lockup-Sound id swap incoming (some transaction) = search handler_rules depth 20

  mempool-Sound :
      (id : String) (swap : ChainSwap) (transaction : TransactionInfo)
      → Sound services.table (on_server_mempool services id swap transaction)
  unfolding on_server_mempool
  mempool-Sound id swap transaction = search status_rules depth 20

  confirmed-Sound :
      (id : String) (swap : ChainSwap) (direction : Direction) (transaction : TransactionInfo)
      → Sound services.table (on_server_confirmed services id swap direction transaction)
  unfolding on_server_confirmed
  confirmed-Sound id swap incoming transaction = search status_rules depth 20
  confirmed-Sound id swap outgoing transaction = search status_rules depth 20

  unless_claimed-Sound :
      (claim_tx_id : Option String) (transaction : Option TransactionInfo)
      (next : TransactionInfo → Action (Unit {0}))
      → ((t : TransactionInfo) → Sound services.table (next t))
      → Sound services.table (unless_claimed services claim_tx_id transaction next)
  unfolding unless_claimed
  unless_claimed-Sound (some claim_tx_id) transaction next h = search handler_rules
  unless_claimed-Sound none none next h = search handler_rules
  unless_claimed-Sound none (some transaction) next h = h transaction

  after_check-Sound :
      (id : String) (exists : Bool) → Sound services.table (after_lockup_check services id exists)
  unfolding after_lockup_check
  after_check-Sound id true = search handler_rules
  after_check-Sound id false = search handler_rules

  unrecoverable-Sound :
      (id : String) (swap : ChainSwap) (refund : Option String)
      → Sound services.table (on_incoming_unrecoverable services id swap refund)
  unfolding on_incoming_unrecoverable
  unrecoverable-Sound id swap (some refund) = search handler_rules
  unrecoverable-Sound id swap none = search (status_rules, after_check-Sound) depth 20

  after_amountless-Sound :
      (id : String) (swap : ChainSwap) (result : Result PaymentError (Unit {0}))
      → Sound services.table (after_amountless services id swap result)
  unfolding after_amountless
  after_amountless-Sound id swap (ok u) = search handler_rules
  after_amountless-Sound id swap (err failure) = search (handler_rules, unrecoverable-Sound)

  failed-Sound :
      (id : String) (swap : ChainSwap) (is_zero_amount : Bool)
      → Sound services.table (on_incoming_failed services id swap is_zero_amount)
  unfolding on_incoming_failed
  failed-Sound id swap false = search (handler_rules, unrecoverable-Sound)
  failed-Sound id swap true = search (status_rules, after_amountless-Sound) depth 20

  ruleset incoming_rules = (
    handler_rules, zero_conf-Sound, user_lockup-Sound, mempool-Sound, confirmed-Sound,
    unless_claimed-Sound, failed-Sound,
  )

  incoming-Sound :
      (u : SwapStatus) (swap : ChainSwap) (state : ChainSwapStates)
      → Sound services.table (on_incoming_state services u swap state)
  unfolding on_incoming_state
  incoming-Sound u swap ChainSwapStates.created = search incoming_rules depth 20
  incoming-Sound u swap ChainSwapStates.transaction_mempool = search incoming_rules depth 20
  incoming-Sound u swap ChainSwapStates.transaction_confirmed = search incoming_rules depth 20
  incoming-Sound u swap ChainSwapStates.transaction_server_mempool = search incoming_rules depth 20
  incoming-Sound u swap ChainSwapStates.transaction_server_confirmed =
      search incoming_rules depth 20
  incoming-Sound u swap ChainSwapStates.transaction_failed = search incoming_rules depth 20
  incoming-Sound u swap ChainSwapStates.transaction_lockup_failed = search incoming_rules depth 20
  incoming-Sound u swap ChainSwapStates.transaction_refunded = search incoming_rules depth 20
  incoming-Sound u swap ChainSwapStates.swap_expired = search incoming_rules depth 20
  incoming-Sound u swap (ChainSwapStates.unhandled status) = search incoming_rules

  lockup-Sound :
      (id : String) (swap : ChainSwap) → Sound services.table (lockup_and_record services id swap)
  unfolding lockup_and_record
  lockup-Sound id swap = search handler_rules depth 20

  created-Sound :
      (id : String) (swap : ChainSwap) (state : PaymentState) (lockup : Option String)
      → Sound services.table (on_created services id swap state lockup)
  unfolding on_created
  created-Sound id swap timed_out lockup = search handler_rules
  created-Sound id swap _ (some lockup) = search handler_rules
  created-Sound id swap _ none = search (handler_rules, lockup-Sound)

  outgoing_unrecoverable-Sound :
      (id : String) (swap : ChainSwap) (refund lockup : Option String)
      → Sound services.table (on_outgoing_unrecoverable services id swap refund lockup)
  unfolding on_outgoing_unrecoverable
  outgoing_unrecoverable-Sound id swap (some refund) lockup = search handler_rules
  outgoing_unrecoverable-Sound id swap none none = search handler_rules
  outgoing_unrecoverable-Sound id swap none (some lockup) = search status_rules depth 20

  ruleset outgoing_rules = (incoming_rules, created-Sound, outgoing_unrecoverable-Sound)

  outgoing-Sound :
      (u : SwapStatus) (swap : ChainSwap) (state : ChainSwapStates)
      → Sound services.table (on_outgoing_state services u swap state)
  unfolding on_outgoing_state
  outgoing-Sound u swap ChainSwapStates.created = search outgoing_rules depth 20
  outgoing-Sound u swap ChainSwapStates.transaction_mempool = search outgoing_rules depth 20
  outgoing-Sound u swap ChainSwapStates.transaction_confirmed = search outgoing_rules depth 20
  outgoing-Sound u swap ChainSwapStates.transaction_server_mempool = search outgoing_rules depth 20
  outgoing-Sound u swap ChainSwapStates.transaction_server_confirmed =
      search outgoing_rules depth 20
  outgoing-Sound u swap ChainSwapStates.transaction_failed = search outgoing_rules depth 20
  outgoing-Sound u swap ChainSwapStates.transaction_lockup_failed = search outgoing_rules depth 20
  outgoing-Sound u swap ChainSwapStates.transaction_refunded = search outgoing_rules depth 20
  outgoing-Sound u swap ChainSwapStates.swap_expired = search outgoing_rules depth 20
  outgoing-Sound u swap (ChainSwapStates.unhandled status) = search outgoing_rules

  state-Sound :
      (u : SwapStatus) (swap : ChainSwap) (direction : Direction) (state : Option ChainSwapStates)
      → Sound services.table (on_state services u swap direction state)
  unfolding on_state
  state-Sound u swap direction none = search handler_rules
  state-Sound u swap incoming (some state) = incoming-Sound u swap state
  state-Sound u swap outgoing (some state) = outgoing-Sound u swap state

  on_new_status-Sound :
      (parse : String → Option ChainSwapStates) (u : SwapStatus)
      → Sound services.table (on_new_status services parse u)
  unfolding on_new_status
  on_new_status-Sound parse u = search (handler_rules, state-Sound) depth 20

  -- A status update of the swapper for a chain swap of either direction, whatever fails on the way,
  -- moves each row along the life cycle only: its id, its direction and its agreed amounts stay, a
  -- known lockup of either side is never overwritten, and a recorded refund is never forgotten, in a
  -- table whose ids are unique.
  pub chain_on_new_status-Moves :
      (parse : String → Option ChainSwapStates) (u : SwapStatus) (db : Db)
      → IsValid (schema services.table) db.swaps
      → Rows Moves db.swaps (on_new_status services parse u db).1.swaps
  chain_on_new_status-Moves parse u db v = (on_new_status-Sound parse u).rows db v

  bitcoin_block-Sound : (height : ℕ) → Sound services.table (on_bitcoin_block services height)
  unfolding on_bitcoin_block
  bitcoin_block-Sound height = search status_rules depth 20

  liquid_block-Sound : (height : ℕ) → Sound services.table (on_liquid_block services height)
  unfolding on_liquid_block
  liquid_block-Sound height = search status_rules depth 20

  -- Each new block of either chain, and each refund that the user asks for, moves each row of chain
  -- swaps along the life cycle only, and forgets neither a lockup nor a refund, in a table whose ids
  -- are unique.
  pub chain_blocks_and_refunds-Moves :
      (height : ℕ) (lockup_address refund_address : String) (fee_rate : ℕ) (cooperative : Bool)
      (db : Db)
      → IsValid (schema services.table) db.swaps
      → Rows Moves db.swaps (on_bitcoin_block services height db).1.swaps
        × Rows Moves db.swaps (on_liquid_block services height db).1.swaps
        × Rows Moves db.swaps
            (refund_incoming_swap services lockup_address refund_address fee_rate cooperative
              db).1.swaps
  chain_blocks_and_refunds-Moves height lockup_address refund_address fee_rate cooperative db v = (
    (bitcoin_block-Sound height).rows db v,
    (liquid_block-Sound height).rows db v,
    (refund_incoming-Sound services lockup_address refund_address fee_rate cooperative).rows db v,
  )
