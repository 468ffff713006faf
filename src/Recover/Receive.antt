-- ===== src/Recover/Receive.antt =====
-- lib/core/src/recover/handlers/handle_receive_swap.rs: a receive swap brought up to date with the
-- chain. The scripts of the swap and of its magic-routing-hint (MRH) address come from libraries.
pub mod State
pub mod Update
pub mod Onchain
use breez_sdk_liquid.Base.{
  ℕ, String, Bool, true, false, ◌&&◌, Option, some, none, List, [], ◌∷◌, if◌then◌else◌, ltb, leb,
  is_some, is_none, unwrap_or, and_then, cleared, find, filter,
}
use mathlib.Core.Option
use breez_sdk_liquid.Base.Int.{ltb_ℤ, as_i32, unsigned_abs}
use breez_sdk_liquid.Base.Text.{str_eq}
use breez_sdk_liquid.Base.Result.{Result, ok, err}
use breez_sdk_liquid.Model.{
  History, confirmed, PaymentState, pending, complete, failed, ReceiveSwap,
}
use breez_sdk_liquid.Model.Errors.{AnyError}
use breez_sdk_liquid.Recover.{WalletTx, TxMap, get, contains_key}
use breez_sdk_liquid.Recover.Lockup.{determine_incoming_lockup_and_claim_txs}

pub record RecoveredOnchainDataReceive : Type 0 where
  pub lockup_tx_id : Option History
  pub claim_tx_id : Option History
  pub mrh_tx_id : Option History
  pub mrh_amount_sat : Option ℕ

pub record ReceiveSwapHistory : Type 0 where
  pub lbtc_claim_script_history : List History
  pub lbtc_mrh_script_history : List History

pub record ReceiveContext : Type 0 where
  pub lbtc_script_to_history_map : List (String × List History)
  pub tx_map : TxMap
  pub liquid_tip_height : ℕ
  pub lbtc_asset_id : String
  -- the script of the funding address of the swap's script
  pub claim_script : ReceiveSwap → Result AnyError String
  -- `ElementsAddress::from_str`, and its script
  pub address_script : String → Option String

abbrev pub opt_txid : Option History → Option String
opt_txid h = Option.map (λ (t : History). t.txid) h

confirmed_state : History → PaymentState
confirmed_state tx = if confirmed tx then complete else pending

claim_state : Option History → Bool → Option PaymentState
claim_state (some claim) is_expired = some (confirmed_state claim)
claim_state none is_expired = if is_expired then some failed else some pending

mrh_state : Option History → Bool → Option PaymentState
mrh_state (some mrh) is_expired = some (confirmed_state mrh)
mrh_state none is_expired = if is_expired then some failed else none

pub derive_partial_state : RecoveredOnchainDataReceive → Bool → Option PaymentState
unfolding confirmed_state claim_state mrh_state
derive_partial_state d is_expired = elim (d.lockup_tx_id) [
  | some _ ↦ claim_state d.claim_tx_id is_expired
  | none ↦ mrh_state d.mrh_tx_id is_expired
]

pub should_skip_recovery : ReceiveSwap → RecoveredOnchainDataReceive → Bool → Bool
should_skip_recovery s d is_within_grace_period =
    let claim_is_cleared = is_some s.claim_tx_id && is_none d.claim_tx_id in
    is_within_grace_period && claim_is_cleared

pub update_swap :
    ReceiveSwap → RecoveredOnchainDataReceive → ℕ → Bool → ReceiveSwap × Result AnyError (Unit {0})
update_swap s d current_block_height is_within_grace_period =
    let is_expired = leb s.timeout_block_height current_block_height in
    let s' = record s {
      state = unwrap_or (derive_partial_state d is_expired) s.state;
      claim_tx_id = opt_txid d.claim_tx_id;
      mrh_tx_id = opt_txid d.mrh_tx_id;
      lockup_tx_id = opt_txid d.lockup_tx_id;
      payer_amount_sat = unwrap_or d.mrh_amount_sat s.payer_amount_sat;
      receiver_amount_sat = unwrap_or d.mrh_amount_sat s.receiver_amount_sat;
    } in
    if should_skip_recovery s d is_within_grace_period then (s, ok tt) else (s', ok tt)

-- The absolute value of what a wallet transaction moves of an asset.
abbrev pub asset_amount : String → WalletTx → Option ℕ
asset_amount asset tx = Option.map unsigned_abs (get asset tx.balance)

-- A transaction after the swap was created that moves at least the receiver amount in LBTC.
abbrev pub pays_enough : ℕ → ℕ → String → WalletTx → Bool
pays_enough swap_timestamp receiver_amount_sat lbtc_asset_id tx =
    unwrap_or (Option.map (λ t. ltb swap_timestamp t) tx.timestamp) true
    && unwrap_or
        (Option.map (λ amount. leb receiver_amount_sat amount) (asset_amount lbtc_asset_id tx))
        false

-- The transactions collected into a map by their id; a later one hides an earlier one.
mrh_txs :
    (WalletTx → Bool) → TxMap → List History → List (String × WalletTx) → List (String × WalletTx)
mrh_txs test tx_map [] collected = collected
mrh_txs test tx_map (h ∷ history) collected =
    mrh_txs test tx_map history (elim (get h.txid tx_map.incoming_tx_map) [
      | none ↦ collected
      | some tx ↦ if test tx then (tx.txid, tx) ∷ collected else collected
    ])

-- The lockup and claim, or where no lockup is known the MRH payment.
choose : Option History → Option History → Option History → Option ℕ → RecoveredOnchainDataReceive
choose (some lockup) claim mrh amount = record {
  lockup_tx_id = some lockup;
  claim_tx_id = claim;
  mrh_tx_id = none;
  mrh_amount_sat = none;
}
choose none claim mrh amount = record {
  lockup_tx_id = none;
  claim_tx_id = none;
  mrh_tx_id = mrh;
  mrh_amount_sat = amount;
}

unfoldable pub recover_onchain_data :
    TxMap → ReceiveSwapHistory → ℕ → ℕ → String → RecoveredOnchainDataReceive
unfolding mrh_txs choose
recover_onchain_data tx_map history swap_timestamp receiver_amount_sat lbtc_asset_id =
    let test = pays_enough swap_timestamp receiver_amount_sat lbtc_asset_id in
    let txs = mrh_txs test tx_map history.lbtc_mrh_script_history [] in
    let mrh_tx_id =
      find (λ (tx : History). contains_key tx.txid txs) history.lbtc_mrh_script_history in
    let mrh_amount_sat =
      and_then (and_then mrh_tx_id (λ h. get h.txid txs)) (asset_amount lbtc_asset_id) in
    let (lockup_tx_id, claim_tx_id) =
      determine_incoming_lockup_and_claim_txs history.lbtc_claim_script_history tx_map in
    choose lockup_tx_id claim_tx_id mrh_tx_id mrh_amount_sat

module _ (c : ReceiveContext) where
  -- The history of a script before the swap's timeout.
  abbrev history_before_timeout : ReceiveSwap → Option String → List History
  history_before_timeout s script =
      filter (λ (h : History). ltb_ℤ h.height (as_i32 s.timeout_block_height))
        (unwrap_or (and_then script (λ k. get k c.lbtc_script_to_history_map)) [])

  pub script_history : ReceiveSwap → String → ReceiveSwapHistory
  script_history s claim_script =
      let mrh_script = if str_eq s.mrh_address "" then none else c.address_script s.mrh_address in
      record {
        lbtc_claim_script_history = history_before_timeout s (some claim_script);
        lbtc_mrh_script_history = history_before_timeout s mrh_script;
      }

  pub recover_swap : ReceiveSwap → Bool → ReceiveSwap × Result AnyError (Unit {0})
  recover_swap s is_within_grace_period = elim (c.claim_script s) [
    | err e ↦ (s, err e)
    | ok claim_script ↦
        let d =
          recover_onchain_data c.tx_map (script_history s claim_script) s.created_at
            s.receiver_amount_sat c.lbtc_asset_id in
        update_swap s d c.liquid_tip_height is_within_grace_period
  ]
