-- ===== src/Chain/Handler.antt =====
-- lib/core/src/chain_swap.rs: the handler of chain swaps, with its updates, lockups and claims. The
-- swapper, the wallet, the chain services, the network and the libraries are fields of `Services`.
-- A script stands for its address; `anyhow::Error` becomes `PaymentError::Generic`.
pub mod Check
pub mod Verify
pub mod Fees
pub mod Refund
pub mod Status
pub mod Blocks
use breez_sdk_liquid.Base.{
  ℕ, String, Bool, true, false, not, Option, some, none, List, [], ◌∷◌, if◌then◌else◌, is_none,
  filter, any, unwrap_or,
}
use breez_sdk_liquid.Base.Int.{ℤ}
use breez_sdk_liquid.Base.Text.{str_eq, contains}
use breez_sdk_liquid.Base.Result.{Result, ok, err, map_err, ok_or}
use breez_sdk_liquid.Base.Exec.{done, fail, lift, attempt, change, gets, when, guard, ◌>>=◌, ◌>>◌}
use breez_sdk_liquid.Model.{ChainSwap, Direction, incoming, outgoing}
use breez_sdk_liquid.Model.Equality.{chain_swap_eq}
use breez_sdk_liquid.Model.Errors.{PaymentError, already_claimed, generic, AnyError}
use breez_sdk_liquid.Persist.{Table, fetch_by_id}
use breez_sdk_liquid.Recover.Btc.{BtcTx, TxOut}
use breez_sdk_liquid.Utils.{LockTime}
use breez_sdk_liquid.Send.Handler.{LiquidTx, SdkTransaction, liquid, bitcoin}
use breez_sdk_liquid.Chain.Amountless.{Quoting}
use breez_sdk_liquid.Chain.Store.{
  Db, Action, ChainSwapUpdate, schema, try_handle_chain_swap_update, set_chain_swap_claim,
  unset_chain_swap_claim_tx_id,
}
use breez_sdk_liquid.Chain.Store.Insert.{insert_or_update_chain_swap}
use breez_sdk_liquid.Chain.Transition.{validate_state_transition}

-- A swap script of either chain: the script of its address, and what else the handler reads of it.
pub record Script : Type 0 where
  pub script_pubkey : Result AnyError String
  pub locktime : LockTime
  pub blinding_key : String

pub data SwapScriptV2 : Type 0 where
  liquid_script bitcoin_script : Script → SwapScriptV2

abbrev pub as_liquid_script : SwapScriptV2 → Result AnyError Script
as_liquid_script (SwapScriptV2.liquid_script s) = ok s
as_liquid_script (SwapScriptV2.bitcoin_script s) = err AnyError.anyhow

abbrev pub as_bitcoin_script : SwapScriptV2 → Result AnyError Script
as_bitcoin_script (SwapScriptV2.liquid_script s) = err AnyError.anyhow
as_bitcoin_script (SwapScriptV2.bitcoin_script s) = ok s

pub record CreateChainResponse : Type 0 where
  pub lockup_amount : ℕ
  pub lockup_address : String
  pub claim_amount : ℕ

-- A Liquid output, whose value is seen with the blinding key.
pub record LiquidTxOut : Type 0 where
  pub script_pubkey : String
  pub unblind : String → Result AnyError ℕ

-- A verified transaction: for each input whether it signals a replacement, and its outputs.
pub record VerifiedTx (Output : Type 0) : Type 0 where
  pub input_is_rbf : List Bool
  pub output : List Output

pub record Services : Type 0 where
  pub table : Table
  -- the swapper's quotes, and what else the validation of a quote asks for
  pub quoting : Quoting
  pub get_zero_amount_chain_swap_quote : String → Result PaymentError ℕ
  pub accept_zero_amount_chain_swap_quote : String → ℕ → Result PaymentError (Unit {0})
  -- the swapper's transactions: a Bitcoin transaction is its id; the last argument of a refund is
  -- `is_cooperative`, the one before it the fee rate
  pub create_claim_tx : ChainSwap → Option String → Result PaymentError SdkTransaction
  pub create_refund_tx :
      ChainSwap → String → List String → Option ℕ → Bool → Result PaymentError SdkTransaction
  pub swapper_broadcast : LiquidTx → Result PaymentError String
  -- the wallet
  pub build_tx_or_drain_tx : String → ℕ → Result PaymentError LiquidTx
  pub next_unused_address : Result PaymentError String
  -- the chain services; a failed broadcast has a text
  pub liquid_broadcast : LiquidTx → Result String String
  pub bitcoin_broadcast : String → Result AnyError String
  pub liquid_utxos : String → Result AnyError (List String)
  pub bitcoin_utxos : String → Result AnyError (List String)
  pub liquid_history : String → Result AnyError (List (String × ℤ))
  pub bitcoin_history : String → Result AnyError (List (String × ℤ))
  pub get_transactions : List String → Result AnyError (List BtcTx)
  pub liquid_verify_tx : String → String → String → Bool → Result AnyError (VerifiedTx LiquidTxOut)
  pub bitcoin_verify_tx : String → String → String → Bool → Result AnyError (VerifiedTx TxOut)
  -- what the swap's create response holds
  pub get_boltz_create_response : ChainSwap → Result AnyError CreateChainResponse
  pub get_lockup_swap_script : ChainSwap → Result AnyError SwapScriptV2
  pub get_claim_swap_script : ChainSwap → Result AnyError SwapScriptV2
  -- `ElementsLockTime::from_height`
  pub from_height : ℕ → Result AnyError LockTime

abbrev pub from_any : {A : Type 0} → Result AnyError A → Action A
from_any result = lift (map_err (λ failure. generic) result)

abbrev pub is_txn_mempool_conflict_error : String → Bool
is_txn_mempool_conflict_error text = contains text "txn-mempool-conflict"

unfoldable pub notify : String → Action (Unit {0})
notify id = change (λ db. record db { notified = id ∷ db.notified })

unfoldable pub insert_payment : String → ℕ → Action (Unit {0})
insert_payment tx_id amount = change (λ db. record db { payments = (tx_id, amount) ∷ db.payments })

-- What a successful broadcast leaves behind.
unfoldable pub sent : String → String → Action String
sent txid returned db = (ok returned, record db { broadcasts = txid ∷ db.broadcasts })

module _ (services : Services) where
  unfoldable pub fetch_chain_swap_by_id : String → Action ChainSwap
  fetch_chain_swap_by_id id db =
      (ok_or (fetch_by_id (schema services.table) id db.swaps) generic, db)

  -- An update without a check of the state transition.
  unfoldable pub update_swap : ChainSwap → Action (Unit {0})
  update_swap updated_swap = do
    swap ← fetch_chain_swap_by_id updated_swap.id
    when (not (chain_swap_eq updated_swap swap))
        (do insert_or_update_chain_swap services.table updated_swap; notify updated_swap.id)

  unfoldable pub update_swap_info : ChainSwapUpdate → Action (Unit {0})
  update_swap_info u = do
    swap ← fetch_chain_swap_by_id u.swap_id
    lift (validate_state_transition swap.state u.to_state)
    try_handle_chain_swap_update services.table u
    updated_swap ← fetch_chain_swap_by_id u.swap_id
    when (not (chain_swap_eq updated_swap swap)) (notify updated_swap.id)

  unfoldable pub broadcast_liquid : LiquidTx → Action String
  broadcast_liquid tx = elim (services.liquid_broadcast tx) [
    | err text ↦ fail generic
    | ok tx_id ↦ sent tx.txid tx_id
  ]

  unfoldable pub broadcast_bitcoin : String → Action String
  broadcast_bitcoin txid = elim (services.bitcoin_broadcast txid) [
    | err failure ↦ fail generic
    | ok tx_id ↦ sent txid tx_id
  ]

  unfoldable pub lockup_funds : String → CreateChainResponse → Action LiquidTx
  lockup_funds id response = do
    lockup_tx ← lift (services.build_tx_or_drain_tx response.lockup_address response.lockup_amount)
    tx_id ← broadcast_liquid lockup_tx
    done lockup_tx

  unfoldable pub claim_address_of : ChainSwap → Direction → Option String → Action (Option String)
  claim_address_of swap incoming none = do
    address ← lift services.next_unused_address
    done (some address)
  claim_address_of swap _ _ = done swap.claim_address

  abbrev pub txid : SdkTransaction → String
  txid (liquid tx) = tx.txid
  txid (bitcoin tx) = tx

  unfoldable pub broadcast_by_swapper : LiquidTx → Action String
  broadcast_by_swapper tx = elim (services.swapper_broadcast tx) [
    | err failure ↦ fail failure
    | ok tx_id ↦ sent tx.txid tx_id
  ]

  -- The chain service first, then the swapper, unless the funds are spent already.
  unfoldable pub broadcast_claim : SdkTransaction → Action String
  broadcast_claim (bitcoin tx) = broadcast_bitcoin tx
  broadcast_claim (liquid tx) = elim (services.liquid_broadcast tx) [
    | ok tx_id ↦ sent tx.txid tx_id
    | err text ↦
        if is_txn_mempool_conflict_error text then fail already_claimed else broadcast_by_swapper tx
  ]

  -- The payment that a claim makes known, and the id that the subscribers are told of.
  unfoldable pub claimed : ChainSwap → String → Direction → Action (Unit {0})
  claimed swap claim_tx_id incoming = do
    insert_payment claim_tx_id
        (unwrap_or swap.accepted_receiver_amount_sat swap.receiver_amount_sat)
    notify claim_tx_id
  claimed swap claim_tx_id outgoing = elim (swap.user_lockup_tx_id) [
    | none ↦ done tt
    | some lockup_tx_id ↦ notify lockup_tx_id
  ]

  unfoldable pub undo_claim : String → String → PaymentError → Action (Unit {0})
  undo_claim id tx_id failure = do
    unset_chain_swap_claim_tx_id services.table id tx_id
    fail failure

  unfoldable pub after_broadcast :
      String → ChainSwap → SdkTransaction → Result PaymentError String → Action (Unit {0})
  after_broadcast id swap claim_tx (ok claim_tx_id) = claimed swap claim_tx_id swap.direction
  after_broadcast id swap claim_tx (err failure) = undo_claim id (txid claim_tx) failure

  unfoldable pub send_claim : String → ChainSwap → SdkTransaction → Action (Unit {0})
  send_claim id swap claim_tx = do
    result ← attempt (broadcast_claim claim_tx)
    after_broadcast id swap claim_tx result

  unfoldable pub claim_inner : String → Action (Unit {0})
  claim_inner id = do
    swap ← fetch_chain_swap_by_id id
    guard (is_none swap.claim_tx_id) already_claimed
    claim_address ← claim_address_of swap swap.direction swap.claim_address
    claim_tx ← lift (services.create_claim_tx swap claim_address)
    set_chain_swap_claim services.table id claim_address (txid claim_tx)
    send_claim id swap claim_tx

  unfoldable pub begin_claim : String → Action (Unit {0})
  begin_claim id = change (λ db. record db { claiming_swaps = id ∷ db.claiming_swaps })

  unfoldable pub end_claim : String → Action (Unit {0})
  end_claim id = change (λ db. record db {
    claiming_swaps = filter (λ (s : String). not (str_eq s id)) db.claiming_swaps;
  })

  -- One claim of a swap at a time.
  unfoldable pub claim : String → Action (Unit {0})
  claim id = do
    claiming ← gets (λ (db : Db). any (λ s. str_eq s id) db.claiming_swaps)
    when (not claiming)
        (do begin_claim id; result ← attempt (claim_inner id); end_claim id; lift result)
