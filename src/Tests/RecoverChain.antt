-- ===== src/Tests/RecoverChain.antt =====
-- Chain swaps brought up to date with both chains.
use mathlib.Core.List.{Memᴰ}
use breez_sdk_liquid.Base.{
  ◌≡◌, refl, ◌⊎◌, ◌<◌, true, false, not, Option, some, none, [], ◌∷◌, length, filter, String,
}
use breez_sdk_liquid.Base.Result.{Result, ok}
use breez_sdk_liquid.Model.Errors.{AnyError}
use breez_sdk_liquid.Recover.Btc.{BtcTx, pays_to}
use breez_sdk_liquid.Recover.Lockup.{determine_incoming_lockup_and_claim_txs}
use breez_sdk_liquid.Recover.ChainSend as ChainSend
use breez_sdk_liquid.Recover.ChainSend.State as SendState
use breez_sdk_liquid.Recover.ChainReceive as ChainReceive
use breez_sdk_liquid.Recover.ChainReceive.State as ReceiveState
use breez_sdk_liquid.Recover.ChainReceive.Onchain as ReceiveOnchain
use breez_sdk_liquid.Tests.Data.{at_height, wallet_txs}

abbrev btc_tx : String → String → BtcTx
btc_tx id script = record {
  txid = id;
  output = record { script_pubkey = script; value = 1000 } ∷ [];
}

abbrev send_data : ChainSend.RecoveredOnchainDataChainSend
send_data = record {
  lbtc_user_lockup_tx_id = some (at_height "lock" 10);
  lbtc_refund_tx_id = none;
  btc_server_lockup_tx_id = some (at_height "server" 11);
  btc_claim_tx_id = none;
}

abbrev send_history : ChainSend.SendChainSwapHistory
send_history = record {
  lbtc_lockup_script_history = at_height "lock" 10 ∷ [];
  btc_claim_script_history = at_height "claim" 12 ∷ at_height "server" 11 ∷ [];
  btc_claim_script_txs = btc_tx "claim" "wallet" ∷ btc_tx "server" "claim_script" ∷ [];
}

abbrev receive_data : ChainReceive.RecoveredOnchainDataChainReceive
receive_data = record {
  lbtc_server_lockup_tx_id = none;
  lbtc_claim_tx_id = none;
  lbtc_claim_address = none;
  btc_user_lockup_tx_id = some (at_height "lock" 10);
  btc_user_lockup_address_balance_sat = 1000;
  btc_user_lockup_amount_sat = 1000;
  btc_refund_tx_id = none;
}

abbrev receive_history : ChainReceive.ReceiveChainSwapHistory
receive_history = record {
  lbtc_claim_script_history = [];
  btc_lockup_script_history = at_height "lock" 10 ∷ at_height "refund" 0 ∷ [];
  btc_lockup_script_txs = btc_tx "lock" "lockup_script" ∷ btc_tx "refund" "wallet" ∷ [];
  btc_lockup_script_balance = some 0;
}

abbrev limits : String → Result AnyError ChainReceive.PairLimits
limits json = ok record { maximal = 5000; minimal = 100 }

abbrev address : String → Option String
address script = some script

chain_send_derive_outcomes_example : SendState.Outcomes send_data true
chain_send_derive_outcomes_example = SendState.chain_send_derive_outcomes send_data true

chain_receive_derive_outcomes_example :
    ReceiveState.Outcomes receive_data (some 1000) none false false
chain_receive_derive_outcomes_example =
    ReceiveState.chain_receive_derive_outcomes receive_data (some 1000) none false false

chain_receive_refund_sound_example :
    let d = ChainReceive.recover_onchain_data address wallet_txs receive_history "lockup_script" in
    Memᴰ (at_height "refund" 0) receive_history.btc_lockup_script_history
    × ((d.lbtc_claim_tx_id ≡ none)
        ⊎ (1
            < length (
                filter
                  (λ tx. not (pays_to "lockup_script" tx))
                  receive_history.btc_lockup_script_txs)))
unfolding ChainReceive.recover_onchain_data determine_incoming_lockup_and_claim_txs
chain_receive_refund_sound_example =
    ReceiveOnchain.chain_receive_refund_sound address wallet_txs receive_history "lockup_script"
      {h = at_height "refund" 0} refl
