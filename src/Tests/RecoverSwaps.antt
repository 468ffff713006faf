-- ===== src/Tests/RecoverSwaps.antt =====
-- Send and receive swaps brought up to date with a chain.
use mathlib.Core.List.{Memᴰ}
use breez_sdk_liquid.Base.{
  ◌≡◌, refl, ◌⊎◌, ◌≤◌, true, false, not, ◌&&◌, some, none, List, [], ◌∷◌, FirstOf, is_some,
}
use breez_sdk_liquid.Base.Result.{ok}
use breez_sdk_liquid.Model.{History}
use breez_sdk_liquid.Utils.{verify_payment_hash}
use breez_sdk_liquid.Recover.{contains_key}
use breez_sdk_liquid.Recover.Lockup.{determine_incoming_lockup_and_claim_txs}
use breez_sdk_liquid.Recover.Lockup.Sound.{IsSound, determine-IsSound}
use breez_sdk_liquid.Recover.Send as Send
use breez_sdk_liquid.Recover.Send.State as SendState
use breez_sdk_liquid.Recover.Send.Update as SendUpdate
use breez_sdk_liquid.Recover.Send.Onchain as SendOnchain
use breez_sdk_liquid.Recover.Receive as Receive
use breez_sdk_liquid.Recover.Receive.State as ReceiveState
use breez_sdk_liquid.Recover.Receive.Onchain as ReceiveOnchain
use breez_sdk_liquid.Tests.Data.{invoice_lib, at_height, wallet_txs, send_swap}

abbrev send_data : Send.RecoveredOnchainDataSend
send_data = record {
  lockup_tx_id = some (at_height "lock" 10);
  claim_tx_id = some (at_height "claim" 12);
  refund_tx_id = none;
  preimage = some "p";
}

abbrev send_history : List History
send_history = at_height "lock" 10 ∷ at_height "claim" 12 ∷ []

abbrev receive_data : Receive.RecoveredOnchainDataReceive
receive_data = record {
  lockup_tx_id = some (at_height "lock" 10);
  claim_tx_id = none;
  mrh_tx_id = none;
  mrh_amount_sat = none;
}

abbrev mrh_history : Receive.ReceiveSwapHistory
mrh_history = record {
  lbtc_claim_script_history = [];
  lbtc_mrh_script_history = at_height "paid" 12 ∷ [];
}

abbrev receive_context : Receive.ReceiveContext
receive_context = record {
  lbtc_script_to_history_map = ("mrh", at_height "paid" 12 ∷ []) ∷ [];
  tx_map = wallet_txs;
  liquid_tip_height = 20;
  lbtc_asset_id = "lbtc";
  claim_script = λ s. ok "claim";
  address_script = λ address. some address;
}

send_derive_outcomes_example : SendState.Outcomes send_data (some "p") false
send_derive_outcomes_example = SendState.send_derive_outcomes send_data (some "p") false

send_preimage_verified_example :
    (send_swap.preimage ≡ some "p")
    ⊎ (verify_payment_hash invoice_lib "p" send_swap.invoice ≡ ok tt)
unfolding Send.update_swap Send.should_skip_recovery verify_payment_hash
send_preimage_verified_example =
    SendUpdate.send_preimage_verified invoice_lib send_swap send_data 20 true refl

send_onchain_sound_example :
    let d = Send.recover_onchain_data wallet_txs send_history in
    FirstOf
      (λ (tx : History). contains_key tx.txid wallet_txs.outgoing_tx_map)
      send_history
      d.lockup_tx_id
    × FirstOf
        (λ (tx : History). contains_key tx.txid wallet_txs.incoming_tx_map)
        send_history
        d.refund_tx_id
    × ((is_some d.lockup_tx_id ≡ true)
          × FirstOf
              (λ (tx : History).
                not (contains_key tx.txid wallet_txs.incoming_tx_map)
                && not (contains_key tx.txid wallet_txs.outgoing_tx_map))
              send_history
              d.claim_tx_id
        ⊎ (is_some d.lockup_tx_id ≡ false) × (d.claim_tx_id ≡ none))
send_onchain_sound_example = SendOnchain.send_onchain_sound wallet_txs send_history

unknown_tx_is_claim_example :
    is_some (Send.recover_onchain_data wallet_txs send_history).claim_tx_id ≡ true
unfolding Send.recover_onchain_data
unknown_tx_is_claim_example =
    SendOnchain.unknown_tx_is_claim wallet_txs send_history {tx = at_height "claim" 12}
      (Memᴰ.tail (Memᴰ.head refl)) refl refl refl

receive_derive_outcomes_example : ReceiveState.Outcomes receive_data false
receive_derive_outcomes_example = ReceiveState.receive_derive_outcomes receive_data false

receive_mrh_pays_enough_example : 800 ≤ 900
unfolding Receive.recover_onchain_data determine_incoming_lockup_and_claim_txs
receive_mrh_pays_enough_example =
    ReceiveOnchain.receive_mrh_pays_enough wallet_txs mrh_history 100 "lbtc" 800 {amount = 900} refl

determine-IsSound_example :
    let history = at_height "paid" 12 ∷ at_height "server" 10 ∷ [] in
    let (lockup, claim) = determine_incoming_lockup_and_claim_txs history wallet_txs in
    IsSound wallet_txs (at_height "paid" 12) (at_height "server" 10) lockup claim
determine-IsSound_example =
    determine-IsSound wallet_txs (at_height "paid" 12) (at_height "server" 10)
