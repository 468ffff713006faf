-- ===== src/Send/Handler.antt =====
-- lib/core/src/send_swap.rs: what the handler of send swaps does to the database of Send/Store. The
-- swapper, the wallet, the chain service, the clock and the libraries are fields of `Services`; each
-- error of theirs becomes the error that the handler returns.
pub mod Status
use breez_sdk_liquid.Base.{
  ℕ, ◌-◌, ◌*◌, String, Bool, true, false, not, ◌&&◌, ◌||◌, Option, some, none, List, [], ◌∷◌,
  if◌then◌else◌, ltb, is_some, is_none,
}
use breez_sdk_liquid.Base.Result.{Result, ok, err, map_err, ok_or}
use breez_sdk_liquid.Model.{PaymentState, state_eq, pending, complete, refund_pending, SendSwap}
use breez_sdk_liquid.Model.Equality.{send_swap_eq}
use breez_sdk_liquid.Model.Errors.{PaymentError, payment_in_progress, generic, AnyError}
use breez_sdk_liquid.Recover.{get}
use breez_sdk_liquid.Send.Store.{
  SuccessAction, aes, other, LnUrlInfo, Db, Table, Action, done, fail, lift, attempt, change, ◌>>=◌,
  ◌>>◌, fetch_send_swap_by_id, try_handle_send_swap_update, set_send_swap_refund_address,
  set_send_swap_lockup_tx_id, unset_send_swap_lockup_tx_id, list_pending_send_swaps,
}
use breez_sdk_liquid.Send.Transition.{validate_state_transition}
use breez_sdk_liquid.Utils.{InvoiceLib, LockTime, is_locktime_expired}

-- A Liquid transaction, as far as the handler looks at it.
pub record LiquidTx : Type 0 where
  pub txid : String
  pub fees_sat : ℕ

pub data SdkTransaction : Type 0 where
  liquid : LiquidTx → SdkTransaction
  bitcoin : String → SdkTransaction

pub record SwapScript : Type 0 where
  pub locktime : LockTime
  pub script_pubkey : Result AnyError String

pub record CreateSubmarineResponse : Type 0 where
  pub expected_amount : ℕ
  pub address : String

pub record Services : Type 0 where
  pub table : Table
  pub invoice_lib : InvoiceLib
  -- the AES success action decrypted with the preimage, or the text of the failure
  pub decrypt_success_action : String → String → Result AnyError String
  -- the wallet
  pub build_tx_or_drain_tx : String → ℕ → Result PaymentError LiquidTx
  pub next_unused_address : Result PaymentError String
  pub tip : ℕ
  -- `LockTime::from_height`
  pub from_height : ℕ → Result AnyError LockTime
  -- the chain service
  pub broadcast : LiquidTx → Result AnyError String
  pub get_script_utxos : String → Result AnyError (List String)
  -- the swapper; the last argument is `is_cooperative`
  pub create_refund_tx : SendSwap → String → List String → Bool → Result PaymentError SdkTransaction
  pub get_send_claim_tx_details : SendSwap → Result PaymentError String
  pub claim_send_swap_cooperative : SendSwap → String → String → Result PaymentError (Unit {0})
  pub get_submarine_preimage : String → Result AnyError String
  -- `SendSwap::get_swap_script`
  pub get_swap_script : SendSwap → Result AnyError SwapScript
  -- seconds since the epoch
  pub now : ℕ
  -- `recover_from_onchain` of the recoverer, for one swap
  pub recover_from_onchain : SendSwap → Result AnyError SendSwap

abbrev pub from_any : {A : Type 0} → Result AnyError A → Action A
from_any result = lift (map_err (λ failure. generic) result)

module _ (services : Services) where
  unfoldable pub fetch : String → Action SendSwap
  fetch id db = (ok_or (fetch_send_swap_by_id services.table id db.swaps) generic, db)

  -- The success action of an LNURL payment is decrypted once the preimage becomes known.
  abbrev processed : LnUrlInfo → String → String → Action Bool
  processed info tx_id preimage = elim (info.lnurl_pay_unprocessed_success_action) [
    | some (aes cipher) ↦ do
      result ← from_any (services.decrypt_success_action cipher preimage)
      change (λ db. record db {
        lnurl_infos =
            (tx_id, record info { lnurl_pay_success_action = some result }) ∷ db.lnurl_infos;
      })
      done true
    | some (other action) ↦ done false
    | none ↦ done false
  ]

  unfoldable pub update_swap_lnurl_info : SendSwap → SendSwap → Action Bool
  update_swap_lnurl_info swap updated_swap db =
      if is_some swap.preimage then (ok false, db) else elim (updated_swap.lockup_tx_id) [
        | none ↦ (ok false, db)
        | some tx_id ↦ elim (updated_swap.preimage) [
          | none ↦ (ok false, db)
          | some preimage ↦ elim (get tx_id db.lnurl_infos) [
            | none ↦ (ok false, db)
            | some info ↦ processed info tx_id preimage db
          ]
        ]
      ]

  abbrev pub notify : String → Action (Unit {0})
  notify id = change (λ db. record db { notified = id ∷ db.notified })

  -- The subscribers are told of a swap that differs from what it was.
  abbrev pub notify_if_changed : SendSwap → SendSwap → Bool → Action (Unit {0})
  notify_if_changed swap updated_swap lnurl_info_updated =
      if not (send_swap_eq updated_swap swap) || lnurl_info_updated
      then notify updated_swap.id
      else done tt

  unfoldable pub update_swap_info :
      String → PaymentState → Option String → Option String → Option String → Action (Unit {0})
  update_swap_info id to_state preimage lockup_tx_id refund_tx_id = do
    swap ← fetch id
    lift (validate_state_transition swap.state to_state)
    try_handle_send_swap_update services.table id to_state preimage lockup_tx_id refund_tx_id
    updated_swap ← fetch id
    lnurl_info_updated ← update_swap_lnurl_info swap updated_swap
    notify_if_changed swap updated_swap lnurl_info_updated

  -- A broadcast that the chain service accepts.
  unfoldable pub broadcast_tx : LiquidTx → Action String
  broadcast_tx tx db = elim (services.broadcast tx) [
    | err failure ↦ (err generic, db)
    | ok tx_id ↦ (ok tx_id, record db { broadcasts = tx.txid ∷ db.broadcasts })
  ]

  abbrev pub undo_lockup : String → String → Action LiquidTx
  undo_lockup id tx_id = do unset_send_swap_lockup_tx_id services.table id tx_id; fail generic

  abbrev pub finish_lockup : String → LiquidTx → ℕ → Action LiquidTx
  finish_lockup id tx amount = do
    change (λ db. record db { payments = (tx.txid, amount) ∷ db.payments })
    update_swap_info id pending none (some tx.txid) none
    done tx

  unfoldable pub try_lockup : SendSwap → CreateSubmarineResponse → Action LiquidTx
  try_lockup swap response = if is_some swap.lockup_tx_id then fail payment_in_progress else do
    tx ← lift (services.build_tx_or_drain_tx response.address response.expected_amount)
    set_send_swap_lockup_tx_id services.table swap.id tx.txid
    result ← attempt (broadcast_tx tx)
    elim result [
      | err failure ↦ undo_lockup swap.id tx.txid
      | ok tx_id ↦ finish_lockup swap.id tx response.expected_amount
    ]

  unfoldable pub refund_address_of : SendSwap → Action String
  refund_address_of swap = elim (swap.refund_address) [
    | some address ↦ done address
    | none ↦ do
      address ← lift services.next_unused_address
      set_send_swap_refund_address services.table swap.id address
      done address
  ]

  abbrev pub broadcast_refund : SdkTransaction → Action String
  broadcast_refund (liquid tx) = broadcast_tx tx
  broadcast_refund (bitcoin tx) = fail generic

  unfoldable pub refund : SendSwap → Bool → Action String
  refund swap is_cooperative = do
    swap_script ← from_any (services.get_swap_script swap)
    refund_address ← refund_address_of swap
    script_pk ← from_any swap_script.script_pubkey
    utxos ← from_any (services.get_script_utxos script_pk)
    refund_tx ← lift (services.create_refund_tx swap refund_address utxos is_cooperative)
    broadcast_refund refund_tx

  unfoldable pub cooperate_claim : SendSwap → String → Action (Unit {0})
  cooperate_claim swap claim_tx_response = do
    refund_address ← refund_address_of swap
    lift (services.claim_send_swap_cooperative swap claim_tx_response refund_address)

  unfoldable pub check_swap_expiry : SendSwap → Result AnyError Bool
  check_swap_expiry swap =
      if ltb services.now swap.created_at
      then err AnyError.anyhow
      else if ltb (services.now - swap.created_at) (60 * 10)
      then ok false
      else elim (services.get_swap_script swap) [
        | err failure ↦ err failure
        | ok swap_script ↦ elim (services.from_height services.tip) [
          | err failure ↦ err failure
          | ok height ↦ ok (is_locktime_expired height swap_script.locktime)
        ]
      ]

  abbrev pub has_expired : SendSwap → Bool
  has_expired swap = elim (check_swap_expiry swap) [ ok expired ↦ expired | err failure ↦ false ]

  -- Cooperatively first, then without the swapper's help.
  abbrev pub refund_both_ways : SendSwap → Action String
  refund_both_ways swap = do
    result ← attempt (refund swap true)
    elim result [ ok tx_id ↦ done tx_id | err failure ↦ refund swap false ]

  -- The result of a refund is recorded; failures are only logged.
  abbrev pub record_refund : SendSwap → Result PaymentError String → Action (Unit {0})
  record_refund swap (err failure) = done tt
  record_refund swap (ok tx_id) = do
    result ← attempt (update_swap_info swap.id refund_pending none none (some tx_id))
    done tt

  abbrev pub recorded : SendSwap → Action String → Action (Unit {0})
  recorded swap action = do result ← attempt action; record_refund swap result

  abbrev pub refund_by_state : SendSwap → Bool → PaymentState → Action (Unit {0})
  refund_by_state swap expired PaymentState.pending = recorded swap (refund swap false)
  refund_by_state swap expired PaymentState.refund_pending =
      if expired then recorded swap (refund_both_ways swap) else recorded swap (refund swap true)
  refund_by_state swap expired _ = done tt

  unfoldable pub try_refund : SendSwap → Action (Unit {0})
  try_refund swap =
      let expired = has_expired swap in
      if is_some swap.refund_tx_id
      then done tt
      else if not expired && state_eq swap.state pending
      then done tt
      else refund_by_state swap expired swap.state

  unfoldable pub try_refund_all : List SendSwap → Action (Unit {0})
  try_refund_all [] = done tt
  try_refund_all (swap ∷ swaps) = do try_refund swap; try_refund_all swaps

  unfoldable pub check_refunds : Action (Unit {0})
  check_refunds db = try_refund_all (list_pending_send_swaps db.swaps) db
