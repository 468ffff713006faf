-- ===== src/Recover/Lockup.antt =====
-- lib/core/src/recover/handlers/mod.rs: which transaction of an incoming swap's script history is
-- the swapper's lockup and which is our claim.
pub mod Sound
use breez_sdk_liquid.Base.{Bool, Option, some, none, true, false, List, [], ◌∷◌, if◌then◌else◌}
use breez_sdk_liquid.Base.Int.{ltb_ℤ}
use breez_sdk_liquid.Model.{History, confirmed}
use breez_sdk_liquid.Recover.{TxMap, contains_key}

-- Neither of two transactions is a claim: they are the lockup and the swapper's refund of it. The
-- first two arguments tell which of them is confirmed.
by_confirmation : Bool → Bool → History → History → Option History × Option History
by_confirmation true true first second =
    (if ltb_ℤ first.height second.height then some first else some second, none)
by_confirmation true false first second = (some first, none)
by_confirmation false true first second = (some second, none)
by_confirmation false false first second = (none, none)

unfoldable pub determine_incoming_lockup_and_claim_txs :
    List History → TxMap → Option History × Option History
unfolding by_confirmation
determine_incoming_lockup_and_claim_txs (only ∷ []) tx_map = (some only, none)
determine_incoming_lockup_and_claim_txs (first ∷ second ∷ []) tx_map =
    if contains_key first.txid tx_map.incoming_tx_map
    then (some second, some first)
    else (if contains_key second.txid tx_map.incoming_tx_map
        then (some first, some second)
        else by_confirmation (confirmed first) (confirmed second) first second)
determine_incoming_lockup_and_claim_txs [] tx_map = (none, none)
determine_incoming_lockup_and_claim_txs (_ ∷ _ ∷ _ ∷ _) tx_map = (none, none)
