-- ===== src/Recover/ChainSend/Onchain.antt =====
-- Which transactions of its histories an outgoing chain swap is given.
use breez_sdk_liquid.Base.{
  String, Option, some, none, List, [], ◌∷◌, ◌≡◌, refl, length, FirstOf, find, find-FirstOf,
  if◌then◌else◌, ◌≤◌,
}
use breez_sdk_liquid.Model.{History}
use breez_sdk_liquid.Recover.{TxMap, contains_key}
use breez_sdk_liquid.Recover.Btc.{BtcTx, pays_to}
use breez_sdk_liquid.Recover.ChainSend.{
  RecoveredOnchainDataChainSend, SendChainSwapHistory, recover_onchain_data,
  server_lockup_and_claim,
}

-- The transactions at hand for each history.
server_lockup_total :
    (history : List History) (txs : List BtcTx) (script : String)
    → length history ≤ length txs
    → (pair : Option History × Option History) × (server_lockup_and_claim history txs script
        ≡ some pair)
unfolding server_lockup_and_claim
server_lockup_total [] txs script h = ((none, none), refl)
server_lockup_total (a ∷ []) txs script h = ((some a, none), refl)
server_lockup_total (a ∷ b ∷ []) [] script h = elim h [ ]
server_lockup_total (a ∷ b ∷ []) (tx ∷ txs) script h =
    (if pays_to script tx then (some a, some b) else (some b, some a), refl)
server_lockup_total (a ∷ b ∷ c ∷ rest) txs script h = ((none, none), refl)

-- Where the chain service returned as many transactions as the history has entries, the recovery
-- does not index out of bounds: it returns the first outgoing transaction of the lockup script as
-- the lockup and the first incoming one as the refund.
pub chain_send_recover_total :
    (tx_map : TxMap) (history : SendChainSwapHistory) (claim_script : String)
    → length history.btc_claim_script_history ≤ length history.btc_claim_script_txs
    → (d : RecoveredOnchainDataChainSend) × (recover_onchain_data tx_map history claim_script
        ≡ some d)
      × FirstOf
          (λ tx. contains_key tx.txid tx_map.outgoing_tx_map)
          history.lbtc_lockup_script_history
          d.lbtc_user_lockup_tx_id
      × FirstOf
          (λ tx. contains_key tx.txid tx_map.incoming_tx_map)
          history.lbtc_lockup_script_history
          d.lbtc_refund_tx_id
unfolding recover_onchain_data
chain_send_recover_total tx_map history claim_script h =
    let lockups = history.lbtc_lockup_script_history in
    let is_outgoing = λ (tx : History). contains_key tx.txid tx_map.outgoing_tx_map in
    let is_incoming = λ (tx : History). contains_key tx.txid tx_map.incoming_tx_map in
    let (btc, e) =
      server_lockup_total history.btc_claim_script_history history.btc_claim_script_txs claim_script
        h in
    (
      record {
        lbtc_user_lockup_tx_id = find is_outgoing lockups;
        lbtc_refund_tx_id = find is_incoming lockups;
        btc_server_lockup_tx_id = btc.0;
        btc_claim_tx_id = btc.1;
      },
      rw e,
      find-FirstOf is_outgoing lockups,
      find-FirstOf is_incoming lockups,
    )
