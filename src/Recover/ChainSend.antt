-- ===== src/Recover/ChainSend.antt =====
-- lib/core/src/recover/handlers/handle_chain_send_swap.rs: an outgoing chain swap brought up to
-- date with both chains. A result of `none` is a panic of the source, where it indexes a list out of
-- its bounds.
pub mod State
pub mod Update
pub mod Onchain
use breez_sdk_liquid.Base.{
  ℕ, String, Bool, true, false, ◌&&◌, ◌||◌, Option, some, none, List, [], ◌∷◌, if◌then◌else◌, leb,
  is_some, is_none, unwrap_or, and_then, find, any,
}
use mathlib.Core.Option
use breez_sdk_liquid.Base.Result.{Result, ok, err}
use breez_sdk_liquid.Model.{
  History, confirmed, PaymentState, pending, complete, failed, refund_pending, ChainSwap,
}
use breez_sdk_liquid.Model.Errors.{AnyError, anyhow}
use breez_sdk_liquid.Recover.{TxMap, get, contains_key}
use breez_sdk_liquid.Recover.Btc.{BtcTx, pays_to}

pub record RecoveredOnchainDataChainSend : Type 0 where
  pub lbtc_user_lockup_tx_id : Option History
  pub lbtc_refund_tx_id : Option History
  pub btc_server_lockup_tx_id : Option History
  pub btc_claim_tx_id : Option History

pub record SendChainSwapHistory : Type 0 where
  pub lbtc_lockup_script_history : List History
  pub btc_claim_script_history : List History
  pub btc_claim_script_txs : List BtcTx

pub record ChainSendContext : Type 0 where
  pub lbtc_script_to_history_map : List (String × List History)
  pub btc_script_to_history_map : List (String × List History)
  pub btc_script_to_txs_map : List (String × List BtcTx)
  pub tx_map : TxMap
  pub liquid_tip_height : ℕ
  pub bitcoin_tip_height : ℕ
  -- the scripts of the funding addresses of the swap's Bitcoin and Liquid scripts
  pub btc_claim_script : ChainSwap → Option String
  pub lbtc_lockup_script : ChainSwap → Option String

abbrev pub opt_txid : Option History → Option String
opt_txid h = Option.map (λ (t : History). t.txid) h

-- A claim and a refund: the swap ends as complete once both are confirmed.
both_state : History → History → PaymentState
both_state claim refund =
    if confirmed claim then (if confirmed refund then complete else refund_pending) else pending

lockup_state : Option History → Option History → Bool → PaymentState
lockup_state (some claim) none is_expired = if confirmed claim then complete else pending
lockup_state none (some refund) is_expired = if confirmed refund then failed else refund_pending
lockup_state (some claim) (some refund) is_expired = both_state claim refund
lockup_state none none is_expired = if is_expired then refund_pending else pending

pub derive_partial_state : RecoveredOnchainDataChainSend → Bool → Option PaymentState
unfolding both_state lockup_state
derive_partial_state d is_expired = elim (d.lbtc_user_lockup_tx_id) [
  | some _ ↦ some (lockup_state d.btc_claim_tx_id d.lbtc_refund_tx_id is_expired)
  | none ↦ if is_expired then some failed else none
]

pub should_skip_recovery : ChainSwap → RecoveredOnchainDataChainSend → Bool → Bool
should_skip_recovery s d is_within_grace_period =
    let lockup_is_cleared = is_some s.user_lockup_tx_id && is_none d.lbtc_user_lockup_tx_id in
    let refund_is_cleared = is_some s.refund_tx_id && is_none d.lbtc_refund_tx_id in
    let claim_is_cleared = is_some s.claim_tx_id && is_none d.btc_claim_tx_id in
    is_within_grace_period && (lockup_is_cleared || (refund_is_cleared || claim_is_cleared))

pub update_swap :
    ChainSwap
    → RecoveredOnchainDataChainSend
    → ℕ
    → ℕ
    → Bool
    → ChainSwap × Result AnyError (Unit {0})
update_swap s d current_liquid_block_height current_bitcoin_block_height is_within_grace_period =
    let is_expired =
      leb s.timeout_block_height current_liquid_block_height
      || leb s.claim_timeout_block_height current_bitcoin_block_height in
    let s' = record s {
      state = unwrap_or (derive_partial_state d is_expired) s.state;
      user_lockup_tx_id = opt_txid d.lbtc_user_lockup_tx_id;
      refund_tx_id = opt_txid d.lbtc_refund_tx_id;
      server_lockup_tx_id = opt_txid d.btc_server_lockup_tx_id;
      claim_tx_id = opt_txid d.btc_claim_tx_id;
    } in
    if should_skip_recovery s d is_within_grace_period then (s, ok tt) else (s', ok tt)

-- The server's lockup and our claim in the history of the claim script.
server_lockup_and_claim :
    List History → List BtcTx → String → Option (Option History × Option History)
server_lockup_and_claim (only ∷ []) txs claim_script = some (some only, none)
server_lockup_and_claim (first ∷ second ∷ []) (first_tx ∷ _) claim_script =
    some (
      if pays_to claim_script first_tx
      then (some first, some second)
      else (some second, some first))
server_lockup_and_claim (first ∷ second ∷ []) [] claim_script = none
server_lockup_and_claim [] txs claim_script = some (none, none)
server_lockup_and_claim (_ ∷ _ ∷ _ ∷ _) txs claim_script = some (none, none)

pub recover_onchain_data :
    TxMap → SendChainSwapHistory → String → Option RecoveredOnchainDataChainSend
unfolding server_lockup_and_claim
recover_onchain_data tx_map history claim_script =
    let is_outgoing = λ (tx : History). contains_key tx.txid tx_map.outgoing_tx_map in
    let is_incoming = λ (tx : History). contains_key tx.txid tx_map.incoming_tx_map in
    Option.map
      (λ (btc : Option History × Option History). record {
        lbtc_user_lockup_tx_id = find is_outgoing history.lbtc_lockup_script_history;
        lbtc_refund_tx_id = find is_incoming history.lbtc_lockup_script_history;
        btc_server_lockup_tx_id = btc.0;
        btc_claim_tx_id = btc.1;
      })
      (server_lockup_and_claim history.btc_claim_script_history history.btc_claim_script_txs
        claim_script)

module _ (c : ChainSendContext) where
  pub script_history : String → String → SendChainSwapHistory
  script_history claim_script lockup_script = record {
    lbtc_lockup_script_history = unwrap_or (get lockup_script c.lbtc_script_to_history_map) [];
    btc_claim_script_history = unwrap_or (get claim_script c.btc_script_to_history_map) [];
    btc_claim_script_txs = unwrap_or (get claim_script c.btc_script_to_txs_map) [];
  }

  recover_with_scripts :
      ChainSwap → Bool → String → String → Option (ChainSwap × Result AnyError (Unit {0}))
  recover_with_scripts s is_within_grace_period claim_script lockup_script =
      Option.map
        (λ d. update_swap s d c.liquid_tip_height c.bitcoin_tip_height is_within_grace_period)
        (recover_onchain_data c.tx_map (script_history claim_script lockup_script) claim_script)

  pub recover_swap : ChainSwap → Bool → Option (ChainSwap × Result AnyError (Unit {0}))
  unfolding recover_with_scripts
  recover_swap s is_within_grace_period = elim (c.btc_claim_script s) [
    | none ↦ some (s, err anyhow)
    | some claim_script ↦ elim (c.lbtc_lockup_script s) [
      | none ↦ some (s, err anyhow)
      | some lockup_script ↦
          recover_with_scripts s is_within_grace_period claim_script lockup_script
    ]
  ]
