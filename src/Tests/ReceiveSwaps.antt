-- ===== src/Tests/ReceiveSwaps.antt =====
-- The handler of receive swaps on a table of one swap.
use breez_sdk_liquid.Base.{
  String, Option, some, none, true, false, [], ◌∷◌, ◌≡◌, refl, ◌⊎◌, ◌↔◌, arith, any, List,
}
use breez_sdk_liquid.Base.Text.{str_eq}
use breez_sdk_liquid.Base.Result.{ok, err}
use breez_sdk_liquid.Model.{ReceiveSwap}
use breez_sdk_liquid.Model.Errors.{generic}
use breez_sdk_liquid.Persist.{Table}
use breez_sdk_liquid.Persist.Rows.{Rows}
use breez_sdk_liquid.Utils.{blocks}
use breez_sdk_liquid.Send.Handler.{LiquidTx, SdkTransaction}
use breez_sdk_liquid.Chain.Handler.{Script}
use breez_sdk_liquid.Chain.Handler.Status.{SwapStatus}
use breez_sdk_liquid.Base.Exec.{◌>>=◌}
use breez_sdk_liquid.Receive.Store.{
  Db, set_receive_swap_claim_address, set_receive_swap_claim_tx_id,
}
use breez_sdk_liquid.Receive.Handler.{
  Services, LockupTx, claim, claim_inner, fetch_receive_swap_by_id, claim_address_of, make_claim,
  only_liquid, send_claim, broadcast_claim, sent, after_broadcast, insert_payment, begin_claim,
  end_claim, notify,
}
use breez_sdk_liquid.Receive.Handler.Lockup.{verify_lockup_tx_amount}
use breez_sdk_liquid.Receive.Handler.Status.{RevSwapStates, on_new_status}
use breez_sdk_liquid.Receive.Handler.Blocks.{on_liquid_block}
use breez_sdk_liquid.Receive.Moves.{Moves}
use breez_sdk_liquid.Receive.Moves.Status.{receive_handler-Moves}
use breez_sdk_liquid.Receive.Safety.Claimed.{ClaimOutcome}
use breez_sdk_liquid.Receive.Safety.Claim.{receive_claim-Outcome}
use breez_sdk_liquid.Receive.Safety.Quiet.{SafeUpdate, receive_claim-IsSafe}
use breez_sdk_liquid.Receive.Safety.Amount.{PaysEnough, verify_lockup_amount_iff}
use breez_sdk_liquid.Ledger.{◌⇒*◌}
use breez_sdk_liquid.Receive.Refines.{view, Event, handle_all, receive_handler-Refines}
use breez_sdk_liquid.Tests.Data.{receive_swap}

abbrev table : Table
table = record {
  id_hash = λ id. "hash of r";
  sync_enabled = true;
  record_id = λ kind id. "record";
  now = 600;
}

abbrev script : Script
script = record { script_pubkey = ok "swap"; locktime = blocks 900; blinding_key = "key" }

abbrev claim_tx : LiquidTx
claim_tx = record { txid = "claim tx"; fees_sat = 20 }

-- 800 sats for the user, and 10 for the claim.
abbrev lockup_tx : LockupTx
lockup_tx = record {
  txid = "lockup tx";
  input_is_rbf = false ∷ [];
  output = record { script_pubkey = "swap"; unblind = λ key. ok 810 } ∷ [];
}

abbrev services : Services
services = record {
  table = table;
  zero_conf_max_amount_sat = none;
  create_claim_tx = λ swap address. ok (SdkTransaction.liquid claim_tx);
  swapper_broadcast = λ tx. err generic;
  next_unused_address = ok "unused";
  liquid_broadcast = λ (tx : LiquidTx). ok tx.txid;
  lockup_broadcast = λ (tx : LockupTx). ok tx.txid;
  verify_tx = λ address id hex confirmed. ok lockup_tx;
  get_transaction_hex = λ id. ok (some "00");
  deserialize_tx_hex = λ hex. ok lockup_tx;
  get_swap_script = λ swap. ok script;
  get_blinding_key = λ swap. ok (some "key");
}

abbrev waiting_swap : ReceiveSwap
waiting_swap = record receive_swap { claim_tx_id = none; mrh_tx_id = none }

abbrev store : Db
store = record {
  swaps = waiting_swap ∷ [];
  reserved_addresses = ("mrh", 900) ∷ [];
  payments = [];
  sync_outgoing = [];
  notified = [];
  broadcasts = [];
  lockup_broadcasts = [];
  claiming_swaps = [];
}

abbrev lockup_seen : SwapStatus
lockup_seen = record {
  id = "r";
  status = "transaction.mempool";
  zero_conf_rejected = none;
  transaction = some record { id = "lockup tx"; hex = some "00" };
}

abbrev parse : String → Option RevSwapStates
parse status = some RevSwapStates.transaction_mempool

receive_handler-Moves_example :
    Rows Moves (waiting_swap ∷ []) (on_new_status services parse lockup_seen store).1.swaps
    × Rows Moves (waiting_swap ∷ []) (on_liquid_block services 800 store).1.swaps
receive_handler-Moves_example = receive_handler-Moves services parse lockup_seen 800 store (tt, tt)

receive_claim-Outcome_example :
    ((any (λ s. str_eq s "r") [] ≡ true) × (claim services "r" store ≡ (ok tt, store)))
    ⊎ ClaimOutcome table "r" store (claim services "r" store)
receive_claim-Outcome_example = receive_claim-Outcome services "r" store (tt, tt)

receive_claim-IsSafe_example :
    ((on_new_status services parse lockup_seen store).1.broadcasts ≡ [])
    ⊎ SafeUpdate services lockup_seen waiting_swap RevSwapStates.transaction_mempool
receive_claim-IsSafe_example =
    receive_claim-IsSafe services parse lockup_seen waiting_swap RevSwapStates.transaction_mempool
      store refl refl

verify_lockup_amount_iff_example :
    (verify_lockup_tx_amount services waiting_swap lockup_tx ≡ ok tt)
    ↔ PaysEnough services waiting_swap lockup_tx
verify_lockup_amount_iff_example =
    verify_lockup_amount_iff services waiting_swap lockup_tx (omega arith)

-- The claim fails at first; at the next block it is tried again and succeeds.
abbrev failing : Services
failing = record services {
  liquid_broadcast = λ tx. err "refused";
  table = record table { now = 500; sync_enabled = false };
}

abbrev events : List (Services × Event)
events = (failing, Event.status_update lockup_seen) ∷ ((services, Event.liquid_block 800) ∷ [])

receive_handler-Refines_example : view store ⇒* view (handle_all parse events store)
receive_handler-Refines_example =
    receive_handler-Refines parse table events store (refl, (refl, tt)) (tt, tt)

-- A claim that works, at a new address of the wallet.
claim_sent : (claim services "r" store).1.broadcasts ≡ "claim tx" ∷ []
unfolding claim claim_inner fetch_receive_swap_by_id claim_address_of set_receive_swap_claim_address
    make_claim only_liquid set_receive_swap_claim_tx_id send_claim broadcast_claim sent
    after_broadcast insert_payment begin_claim end_claim notify ◌>>=◌
claim_sent = refl
