-- ===== src/Recover/ChainReceive.antt =====
-- lib/core/src/recover/handlers/handle_chain_receive_swap.rs: an incoming chain swap brought up to
-- date with both chains.
pub mod State
pub mod Update
pub mod Onchain
use breez_sdk_liquid.Base.{
  ℕ, String, Bool, true, false, not, ◌&&◌, ◌||◌, Option, some, none, List, [], ◌∷◌, if◌then◌else◌,
  ltb, leb, ◌==◌, is_some, is_none, unwrap_or, and_then, or_else, length, find, find_last, last?,
  filter, get_elem?,
}
use mathlib.Core.Option
use breez_sdk_liquid.Base.Int.{ℤ, pos, negsuc}
use breez_sdk_liquid.Base.Text.{str_eq}
use breez_sdk_liquid.Base.Result.{Result, ok, err}
use breez_sdk_liquid.Model.{
  History, confirmed, PaymentState, pending, complete, failed, refundable, refund_pending,
  waiting_fee_acceptance, ChainSwap, is_waiting_fee_acceptance,
}
use breez_sdk_liquid.Model.Errors.{AnyError, anyhow}
use breez_sdk_liquid.Recover.{WalletTx, TxMap, get}
use breez_sdk_liquid.Recover.Btc.{BtcTx, TxOut, pays_to}
use breez_sdk_liquid.Recover.Lockup.{determine_incoming_lockup_and_claim_txs}

pub record RecoveredOnchainDataChainReceive : Type 0 where
  pub lbtc_server_lockup_tx_id : Option History
  pub lbtc_claim_tx_id : Option History
  pub lbtc_claim_address : Option String
  pub btc_user_lockup_tx_id : Option History
  pub btc_user_lockup_address_balance_sat : ℕ
  pub btc_user_lockup_amount_sat : ℕ
  pub btc_refund_tx_id : Option History

pub record ReceiveChainSwapHistory : Type 0 where
  pub lbtc_claim_script_history : List History
  pub btc_lockup_script_history : List History
  pub btc_lockup_script_txs : List BtcTx
  -- the confirmed part of the script's balance
  pub btc_lockup_script_balance : Option ℕ

-- The limits of a swap pair, a type of the swapper's library.
pub record PairLimits : Type 0 where
  pub maximal : ℕ
  pub minimal : ℕ

pub record ChainReceiveContext : Type 0 where
  pub lbtc_script_to_history_map : List (String × List History)
  pub btc_script_to_history_map : List (String × List History)
  pub btc_script_to_txs_map : List (String × List BtcTx)
  pub btc_script_to_balance_map : List (String × ℕ)
  pub tx_map : TxMap
  pub liquid_tip_height : ℕ
  pub bitcoin_tip_height : ℕ
  -- the scripts of the funding addresses of the swap's Bitcoin and Liquid scripts
  pub btc_lockup_script : ChainSwap → Option String
  pub lbtc_claim_script : ChainSwap → Option String
  -- `ElementsAddress::from_script` with the blinding key of the wallet
  pub address_from_script : String → Option String
  -- `get_boltz_pair`, which parses `pair_fees_json`
  pub pair_limits : String → Result AnyError PairLimits

abbrev pub opt_txid : Option History → Option String
opt_txid h = Option.map (λ (t : History). t.txid) h

abbrev pub unexpected_amount : RecoveredOnchainDataChainReceive → Option ℕ → Bool
unexpected_amount d none = false
unexpected_amount d (some expected) = not (expected == d.btc_user_lockup_amount_sat)

abbrev pub amount_out_of_bounds : RecoveredOnchainDataChainReceive → Option PairLimits → Bool
amount_out_of_bounds d none = false
amount_out_of_bounds d (some limits) =
    ltb d.btc_user_lockup_amount_sat limits.minimal
    || ltb limits.maximal d.btc_user_lockup_amount_sat

abbrev pub expired_refundable : RecoveredOnchainDataChainReceive → Bool → Bool
expired_refundable d is_expired = is_expired && ltb 0 d.btc_user_lockup_address_balance_sat

-- The arguments are: funds left after expiry, refundable for any reason, waiting for the user.
lockup_state : Option History → Option History → Bool → Bool → Bool → PaymentState
lockup_state (some claim) none late_funds is_refundable is_waiting =
    if confirmed claim then (if late_funds then refundable else complete) else pending
lockup_state none (some refund) late_funds is_refundable is_waiting =
    if confirmed refund then (if late_funds then refundable else failed) else refund_pending
lockup_state (some claim) (some refund) late_funds is_refundable is_waiting =
    if confirmed claim
    then (if confirmed refund
        then (if late_funds then refundable else complete)
        else refund_pending)
    else pending
lockup_state none none late_funds is_refundable is_waiting =
    if is_refundable then refundable else if is_waiting then waiting_fee_acceptance else pending

pub derive_partial_state :
    RecoveredOnchainDataChainReceive
    → Option ℕ
    → Option PairLimits
    → Bool
    → Bool
    → Option PaymentState
unfolding lockup_state
derive_partial_state d expected_user_lockup_amount_sat swap_limits is_expired is_waiting =
    let late_funds = expired_refundable d is_expired in
    let is_refundable =
      late_funds
      || (unexpected_amount d expected_user_lockup_amount_sat
          || amount_out_of_bounds d swap_limits) in
    elim (d.btc_user_lockup_tx_id) [
      | some _ ↦
          some
            (lockup_state d.lbtc_claim_tx_id d.btc_refund_tx_id late_funds is_refundable is_waiting)
      | none ↦ if is_expired then some failed else none
    ]

pub should_skip_recovery : ChainSwap → RecoveredOnchainDataChainReceive → Bool → Bool
should_skip_recovery s d is_within_grace_period =
    let claim_is_cleared = is_some s.claim_tx_id && is_none d.lbtc_claim_tx_id in
    let refund_is_cleared = is_some s.refund_tx_id && is_none d.btc_refund_tx_id in
    is_within_grace_period && (claim_is_cleared || refund_is_cleared)

-- The expected amount, or for an amountless swap the limits of its pair.
abbrev expected_or_limits :
    ChainSwap → Result AnyError PairLimits → Result AnyError (Option ℕ × Option PairLimits)
expected_or_limits s limits =
    if s.payer_amount_sat == 0
    then elim limits [ ok l ↦ ok (none, some l) | err e ↦ err e ]
    else ok (some s.payer_amount_sat, none)

pub update_swap :
    (String → Result AnyError PairLimits)
    → ChainSwap
    → RecoveredOnchainDataChainReceive
    → ℕ
    → ℕ
    → Bool
    → ChainSwap × Result AnyError (Unit {0})
update_swap pair_limits s d current_liquid_block_height current_bitcoin_block_height grace =
    let is_expired =
      leb s.claim_timeout_block_height current_liquid_block_height
      || leb s.timeout_block_height current_bitcoin_block_height in
    let paid = record s {
      actual_payer_amount_sat =
          if ltb 0 d.btc_user_lockup_amount_sat
          then some d.btc_user_lockup_amount_sat
          else s.actual_payer_amount_sat;
    } in
    if should_skip_recovery s d grace
    then (s, ok tt)
    else elim (expected_or_limits s (pair_limits s.pair_fees_json)) [
      | err e ↦ (paid, err e)
      | ok (expected, limits) ↦ (
        record paid {
          state =
              unwrap_or
                (derive_partial_state d expected limits is_expired (is_waiting_fee_acceptance paid))
                s.state;
          server_lockup_tx_id = opt_txid d.lbtc_server_lockup_tx_id;
          claim_address = d.lbtc_claim_address;
          user_lockup_tx_id = opt_txid d.btc_user_lockup_tx_id;
          claim_tx_id = opt_txid d.lbtc_claim_tx_id;
          refund_tx_id = opt_txid d.btc_refund_tx_id;
        },
        ok tt,
      )
    ]

-- The script of the first output that the wallet owns.
first_own_script : List (Option String) → Option String
first_own_script [] = none
first_own_script (some script ∷ outputs) = some script
first_own_script (none ∷ outputs) = first_own_script outputs

claim_address : (String → Option String) → TxMap → Option History → Option String
unfolding first_own_script
claim_address address_from_script tx_map none = none
claim_address address_from_script tx_map (some claim) =
    and_then
      (and_then (get claim.txid tx_map.incoming_tx_map)
        (λ (tx : WalletTx). first_own_script tx.outputs))
      address_from_script

-- The entry of the history for a transaction.
abbrev pub history_entry : List History → BtcTx → Option History
history_entry history tx = find (λ (h : History). str_eq h.txid tx.txid) history

abbrev pub history_entries : List History → List BtcTx → List History
history_entries history [] = []
history_entries history (tx ∷ txs) =
    let rest = history_entries history txs in
    elim (history_entry history tx) [ some h ↦ h ∷ rest | none ↦ rest ]

abbrev is_height_zero : ℤ → Bool
is_height_zero (pos n) = n == 0
is_height_zero (negsuc n) = false

-- The value of the first output to the lockup script.
lockup_amount : String → Option BtcTx → ℕ
lockup_amount script none = 0
lockup_amount script (some tx) =
    unwrap_or
      (Option.map (λ (out : TxOut). out.value)
        (find (λ (out : TxOut). str_eq out.script_pubkey script) tx.output))
      0

-- Once there is a claim, a single outgoing transaction is the swapper's, not a refund.
refund_tx : Option History → ℕ → Option History → Option History
refund_tx claim outgoing_count last_outgoing =
    if is_some claim then (if ltb 1 outgoing_count then last_outgoing else none) else last_outgoing

unfoldable pub recover_onchain_data :
    (String → Option String)
    → TxMap
    → ReceiveChainSwapHistory
    → String
    → RecoveredOnchainDataChainReceive
unfolding claim_address lockup_amount refund_tx
recover_onchain_data address_from_script tx_map history lockup_script =
    let (server_lockup, claim) =
      determine_incoming_lockup_and_claim_txs history.lbtc_claim_script_history tx_map in
    let incoming = filter (λ tx. pays_to lockup_script tx) history.btc_lockup_script_txs in
    let outgoing = filter (λ tx. not (pays_to lockup_script tx)) history.btc_lockup_script_txs in
    let user_lockup = get_elem? incoming 0 in
    let outgoing_ids = history_entries history.btc_lockup_script_history outgoing in
    let last_outgoing =
      or_else (find_last (λ (h : History). is_height_zero h.height) outgoing_ids)
        (last? outgoing_ids) in
    record {
      lbtc_server_lockup_tx_id = server_lockup;
      lbtc_claim_tx_id = claim;
      lbtc_claim_address = claim_address address_from_script tx_map claim;
      btc_user_lockup_tx_id =
          and_then user_lockup (history_entry history.btc_lockup_script_history);
      btc_user_lockup_address_balance_sat = unwrap_or history.btc_lockup_script_balance 0;
      btc_user_lockup_amount_sat = lockup_amount lockup_script user_lockup;
      btc_refund_tx_id = refund_tx claim (length outgoing) last_outgoing;
    }

module _ (c : ChainReceiveContext) where
  pub script_history : String → String → ReceiveChainSwapHistory
  script_history lockup_script claim_script = record {
    lbtc_claim_script_history = unwrap_or (get claim_script c.lbtc_script_to_history_map) [];
    btc_lockup_script_history = unwrap_or (get lockup_script c.btc_script_to_history_map) [];
    btc_lockup_script_txs = unwrap_or (get lockup_script c.btc_script_to_txs_map) [];
    btc_lockup_script_balance = get lockup_script c.btc_script_to_balance_map;
  }

  pub recover_swap : ChainSwap → Bool → ChainSwap × Result AnyError (Unit {0})
  recover_swap s is_within_grace_period = elim (c.btc_lockup_script s) [
    | none ↦ (s, err anyhow)
    | some lockup_script ↦ elim (c.lbtc_claim_script s) [
      | none ↦ (s, err anyhow)
      | some claim_script ↦
          let history = script_history lockup_script claim_script in
          let d = recover_onchain_data c.address_from_script c.tx_map history lockup_script in
          update_swap c.pair_limits s d c.liquid_tip_height c.bitcoin_tip_height
            is_within_grace_period
    ]
  ]
