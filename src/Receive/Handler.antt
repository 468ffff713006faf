-- ===== src/Receive/Handler.antt =====
-- lib/core/src/receive_swap.rs: the handler of receive swaps, with its updates and claims. The
-- swapper, the wallet, the chain service and the libraries are fields of `Services`. A script stands
-- for its address; `anyhow::Error` becomes `PaymentError::Generic`.
pub mod Lockup
pub mod Status
pub mod Blocks
use breez_sdk_liquid.Base.{
  ℕ, String, Bool, not, Option, some, none, List, ◌∷◌, if◌then◌else◌, is_none, is_some, filter, any,
}
use breez_sdk_liquid.Base.Text.{str_eq}
use breez_sdk_liquid.Base.Result.{Result, ok, err, map_err, ok_or}
use breez_sdk_liquid.Base.Exec.{done, fail, lift, attempt, change, gets, when, guard, ◌>>=◌, ◌>>◌}
use breez_sdk_liquid.Model.{PaymentState, ReceiveSwap}
use breez_sdk_liquid.Model.Equality.{receive_swap_eq}
use breez_sdk_liquid.Model.Errors.{PaymentError, already_claimed, generic, AnyError}
use breez_sdk_liquid.Persist.{Table, fetch_by_id}
use breez_sdk_liquid.Send.Handler.{LiquidTx, SdkTransaction, liquid, bitcoin}
use breez_sdk_liquid.Chain.Handler.{Script, LiquidTxOut, is_txn_mempool_conflict_error}
use breez_sdk_liquid.Receive.Store.{
  Db, Action, schema, delete_reserved_address, set_receive_swap_claim_address,
  set_receive_swap_claim_tx_id, unset_receive_swap_claim_tx_id, try_handle_receive_swap_update,
}
use breez_sdk_liquid.Receive.Store.Insert.{insert_or_update_receive_swap}
use breez_sdk_liquid.Receive.Transition.{validate_state_transition}

-- A transaction of the swapper: its id, for each input whether it signals a replacement, and its
-- outputs.
pub record LockupTx : Type 0 where
  pub txid : String
  pub input_is_rbf : List Bool
  pub output : List LiquidTxOut

pub record Services : Type 0 where
  pub table : Table
  -- `Config::zero_conf_max_amount_sat`
  pub zero_conf_max_amount_sat : Option ℕ
  -- the swapper
  pub create_claim_tx : ReceiveSwap → Option String → Result PaymentError SdkTransaction
  pub swapper_broadcast : LiquidTx → Result PaymentError String
  -- the wallet
  pub next_unused_address : Result PaymentError String
  -- the chain service; a failed broadcast has a text
  pub liquid_broadcast : LiquidTx → Result String String
  pub lockup_broadcast : LockupTx → Result String String
  pub verify_tx : String → String → String → Bool → Result AnyError LockupTx
  pub get_transaction_hex : String → Result AnyError (Option String)
  pub deserialize_tx_hex : String → Result AnyError LockupTx
  -- what the swap's create response holds: its script and its blinding key
  pub get_swap_script : ReceiveSwap → Result AnyError Script
  pub get_blinding_key : ReceiveSwap → Result AnyError (Option String)

abbrev pub from_any : {A : Type 0} → Result AnyError A → Action A
from_any result = lift (map_err (λ failure. generic) result)

unfoldable pub notify : String → Action (Unit {0})
notify id = change (λ db. record db { notified = id ∷ db.notified })

unfoldable pub insert_payment : String → ℕ → Action (Unit {0})
insert_payment tx_id amount = change (λ db. record db { payments = (tx_id, amount) ∷ db.payments })

-- What a successful broadcast of a claim leaves behind.
unfoldable pub sent : String → String → Action String
sent txid returned db = (ok returned, record db { broadcasts = txid ∷ db.broadcasts })

module _ (services : Services) where
  unfoldable pub fetch_receive_swap_by_id : String → Action ReceiveSwap
  fetch_receive_swap_by_id id db =
      (ok_or (fetch_by_id (schema services.table) id db.swaps) generic, db)

  -- An update without a check of the state transition.
  unfoldable pub update_swap : ReceiveSwap → Action (Unit {0})
  update_swap updated_swap = do
    swap ← fetch_receive_swap_by_id updated_swap.id
    when (not (receive_swap_eq updated_swap swap))
        (do insert_or_update_receive_swap services.table updated_swap; notify updated_swap.id)

  unfoldable pub update_swap_info :
      String
      → PaymentState
      → Option String
      → Option String
      → Option String
      → Option ℕ
      → Action (Unit {0})
  update_swap_info id to_state claim_tx_id lockup_tx_id mrh_tx_id mrh_amount_sat = do
    swap ← fetch_receive_swap_by_id id
    lift (validate_state_transition swap.state to_state)
    try_handle_receive_swap_update services.table id to_state claim_tx_id lockup_tx_id mrh_tx_id
        mrh_amount_sat
    updated_swap ← fetch_receive_swap_by_id id
    when (is_some mrh_tx_id) (delete_reserved_address swap.mrh_address)
    when (not (receive_swap_eq updated_swap swap)) (notify updated_swap.id)

  -- The address of the swap, or a new one that is written to it.
  unfoldable pub claim_address_of : String → Option String → Action String
  claim_address_of id (some address) = done address
  claim_address_of id none = do
    address ← lift services.next_unused_address
    set_receive_swap_claim_address services.table id address
    done address

  unfoldable pub only_liquid : SdkTransaction → Result PaymentError LiquidTx
  only_liquid (liquid tx) = ok tx
  only_liquid (bitcoin tx) = err generic

  unfoldable pub broadcast_by_swapper : LiquidTx → Action String
  broadcast_by_swapper tx = elim (services.swapper_broadcast tx) [
    | err failure ↦ fail failure
    | ok tx_id ↦ sent tx.txid tx_id
  ]

  -- The chain service first, then the swapper, unless the funds are spent already.
  unfoldable pub broadcast_claim : LiquidTx → Action String
  broadcast_claim tx = elim (services.liquid_broadcast tx) [
    | ok tx_id ↦ sent tx.txid tx_id
    | err text ↦
        if is_txn_mempool_conflict_error text then fail already_claimed else broadcast_by_swapper tx
  ]

  unfoldable pub after_broadcast :
      String → ReceiveSwap → LiquidTx → Result PaymentError String → Action (Unit {0})
  after_broadcast id swap claim_tx (ok claim_tx_id) = do
    insert_payment claim_tx_id swap.receiver_amount_sat
    notify claim_tx_id
  after_broadcast id swap claim_tx (err failure) = do
    unset_receive_swap_claim_tx_id services.table id claim_tx.txid
    fail failure

  unfoldable pub send_claim : String → ReceiveSwap → LiquidTx → Action (Unit {0})
  send_claim id swap claim_tx = do
    result ← attempt (broadcast_claim claim_tx)
    after_broadcast id swap claim_tx result

  unfoldable pub make_claim : String → ReceiveSwap → String → Action (Unit {0})
  make_claim id swap claim_address = do
    tx ← lift (services.create_claim_tx swap (some claim_address))
    claim_tx ← lift (only_liquid tx)
    set_receive_swap_claim_tx_id services.table id claim_tx.txid
    send_claim id swap claim_tx

  unfoldable pub claim_inner : String → Action (Unit {0})
  claim_inner id = do
    swap ← fetch_receive_swap_by_id id
    guard (is_none swap.claim_tx_id) already_claimed
    claim_address ← claim_address_of swap.id swap.claim_address
    make_claim id swap claim_address

  unfoldable pub begin_claim : String → Action (Unit {0})
  begin_claim id = change (λ db. record db { claiming_swaps = id ∷ db.claiming_swaps })

  unfoldable pub end_claim : String → Action (Unit {0})
  end_claim id = change (λ db. record db {
    claiming_swaps = filter (λ (s : String). not (str_eq s id)) db.claiming_swaps;
  })

  -- One claim of a swap at a time.
  unfoldable pub claim : String → Action (Unit {0})
  claim id = do
    claiming ← gets (λ (db : Db). any (λ s. str_eq s id) db.claiming_swaps)
    when (not claiming)
        (do begin_claim id; result ← attempt (claim_inner id); end_claim id; lift result)
