-- ===== src/Tests/ChainSwaps.antt =====
-- The handler of chain swaps on a table of one incoming swap.
use breez_sdk_liquid.Base.{
  String, Option, some, none, true, false, [], ◌∷◌, ◌≡◌, refl, ◌⊎◌, arith, any, add_u64, sub_u64,
}
use breez_sdk_liquid.Base.Text.{str_eq}
use breez_sdk_liquid.Base.Int.{pos}
use breez_sdk_liquid.Base.Result.{ok, err}
use breez_sdk_liquid.Model.{ChainSwap}
use breez_sdk_liquid.Model.Errors.{anyhow, generic}
use breez_sdk_liquid.Persist.{Table}
use breez_sdk_liquid.Persist.Rows.{Rows}
use breez_sdk_liquid.Utils.{blocks}
use breez_sdk_liquid.Send.Handler.{LiquidTx, SdkTransaction}
use breez_sdk_liquid.Chain.Amountless.{
  Quoting, validate_amountless_swap, user_lockup_amount, decide_quote,
  server_lockup_amount_estimate,
}
use breez_sdk_liquid.Chain.Store.{
  Db, set_chain_swap_claim, update_accepted_receiver_amount, update_actual_payer_amount,
  set_chain_swap_auto_accepted_fees,
}
use breez_sdk_liquid.Base.Exec.{◌>>=◌}
use breez_sdk_liquid.Chain.Handler.{
  Script, SwapScriptV2, Services, claim, claim_inner, send_claim, after_broadcast, broadcast_claim,
  claim_address_of, claimed, sent, notify, insert_payment, begin_claim, end_claim,
  fetch_chain_swap_by_id,
}
use breez_sdk_liquid.Chain.Handler.Check.{
  TransactionInfo, verify_server_lockup_by, verify_incoming_server_lockup_tx, unblinded_value,
  expected_incoming,
}
use breez_sdk_liquid.Chain.Handler.Fees.{
  handle_amountless_update, on_validated, accept_quote, after_accept,
}
use breez_sdk_liquid.Chain.Handler.Refund.{refund_incoming_swap}
use breez_sdk_liquid.Chain.Handler.Status.{ChainSwapStates, SwapStatus, on_new_status}
use breez_sdk_liquid.Chain.Handler.Blocks.{on_bitcoin_block, on_liquid_block}
use breez_sdk_liquid.Chain.Moves.{Moves}
use breez_sdk_liquid.Chain.Moves.Status.{chain_on_new_status-Moves, chain_blocks_and_refunds-Moves}
use breez_sdk_liquid.Chain.Safety.Quiet.{unconfirmed, unsafe_lockup-unclaimed}
use breez_sdk_liquid.Chain.Safety.Unrecorded.{locks_of, in_mempool, refused_lockup-unrecorded}
use breez_sdk_liquid.Chain.Safety.Quote.{Outcome, handle_amountless-Outcome}
use breez_sdk_liquid.Chain.Safety.Claim.{chain_claim-Outcome}
use breez_sdk_liquid.Chain.Safety.Claimed.{ClaimOutcome}
use breez_sdk_liquid.Chain.Safety.Lockup.{Paid, verify_server_lockup-Paid}
use breez_sdk_liquid.Tests.Data.{chain_swap}

abbrev table : Table
table = record {
  id_hash = λ id. "hash of c";
  sync_enabled = true;
  record_id = λ kind id. "record";
  now = 600;
}

abbrev claim_script : Script
claim_script = record { script_pubkey = ok "claim"; locktime = blocks 900; blinding_key = "key" }

abbrev lockup_script : Script
lockup_script = record { script_pubkey = ok "lock"; locktime = blocks 900; blinding_key = "key" }

abbrev claim_tx : LiquidTx
claim_tx = record { txid = "claim tx"; fees_sat = 20 }

abbrev quoting : Quoting
quoting = record {
  get_receive_lockup_swap_script_pubkey = λ swap. ok "lock";
  script_get_balance_with_retry = λ script. ok record { confirmed = 100000; unconfirmed = pos 0 };
  get_boltz_pair = λ swap. ok record { server = 1000; boltz = λ amount. 250 };
  onchain_fee_rate_leeway_sat = none;
}

-- The server locks up 990 sats, and the swapper takes any quote.
abbrev services : Services
services = record {
  table = table;
  quoting = quoting;
  get_zero_amount_chain_swap_quote = λ id. ok 98250;
  accept_zero_amount_chain_swap_quote = λ id quote. ok tt;
  create_claim_tx = λ swap address. ok (SdkTransaction.liquid claim_tx);
  create_refund_tx =
      λ swap address utxos fee_rate cooperative. ok (SdkTransaction.bitcoin "refund tx");
  swapper_broadcast = λ tx. err generic;
  build_tx_or_drain_tx = λ address amount. err generic;
  next_unused_address = ok "unused";
  liquid_broadcast = λ (tx : LiquidTx). ok tx.txid;
  bitcoin_broadcast = λ tx. ok tx;
  liquid_utxos = λ script. ok [];
  bitcoin_utxos = λ script. ok [];
  liquid_history = λ script. ok (("server", pos 10) ∷ []);
  bitcoin_history = λ script. ok (("lock", pos 10) ∷ []);
  get_transactions = λ ids. ok (
      record { txid = "lock"; output = record { script_pubkey = "lock"; value = 1000 } ∷ [] } ∷ []);
  liquid_verify_tx = λ address id hex confirmed. ok record {
    input_is_rbf = false ∷ [];
    output = record { script_pubkey = "claim"; unblind = λ key. ok 990 } ∷ [];
  };
  bitcoin_verify_tx = λ address id hex confirmed. err anyhow;
  get_boltz_create_response =
      λ swap. ok record { lockup_amount = 1000; lockup_address = "bc1"; claim_amount = 990 };
  get_lockup_swap_script = λ swap. ok (SwapScriptV2.bitcoin_script lockup_script);
  get_claim_swap_script = λ swap. ok (SwapScriptV2.liquid_script claim_script);
  from_height = λ height. ok (blocks height);
}

abbrev store : ChainSwap → Db
store s = record {
  swaps = s ∷ [];
  payments = [];
  sync_outgoing = [];
  notified = [];
  broadcasts = [];
  accepted_quotes = [];
  claiming_swaps = [];
}

-- A swap that waits for the server's lockup, and one that wants it confirmed.
abbrev waiting_swap : ChainSwap
waiting_swap = record chain_swap { claim_tx_id = none }

abbrev patient_swap : ChainSwap
patient_swap = record waiting_swap { accept_zero_conf = false }

abbrev server_tx : TransactionInfo
server_tx = record { id = "server"; hex = some "00" }

abbrev server_seen : SwapStatus
server_seen = record {
  id = "c";
  status = "transaction.server.mempool";
  zero_conf_rejected = none;
  transaction = some server_tx;
}

abbrev parse : String → Option ChainSwapStates
parse status = some ChainSwapStates.transaction_server_mempool

chain_on_new_status-Moves_example :
    Rows Moves
      (waiting_swap ∷ [])
      (on_new_status services parse server_seen (store waiting_swap)).1.swaps
chain_on_new_status-Moves_example =
    chain_on_new_status-Moves services parse server_seen (store waiting_swap) (tt, tt)

chain_blocks_and_refunds-Moves_example :
    Rows Moves (waiting_swap ∷ []) (on_bitcoin_block services 800 (store waiting_swap)).1.swaps
    × Rows Moves (waiting_swap ∷ []) (on_liquid_block services 800 (store waiting_swap)).1.swaps
    × Rows Moves
        (waiting_swap ∷ [])
        (refund_incoming_swap services "bc1" "bc2" 2 true (store waiting_swap)).1.swaps
chain_blocks_and_refunds-Moves_example =
    chain_blocks_and_refunds-Moves services 800 "bc1" "bc2" 2 true (store waiting_swap) (tt, tt)

unsafe_lockup-unclaimed_example :
    (on_new_status services parse server_seen (store patient_swap)).1.broadcasts ≡ []
unsafe_lockup-unclaimed_example =
    unsafe_lockup-unclaimed services parse server_seen patient_swap server_tx (store patient_swap)
      refl refl refl (unconfirmed refl)

-- The chain service does not find the lockup.
abbrev blind : Services
blind = record services { liquid_verify_tx = λ address id hex confirmed. err anyhow }

refused_lockup-unrecorded_example :
    locks_of (on_new_status blind parse server_seen (store waiting_swap)).1
    ≡ locks_of (store waiting_swap)
unfolding verify_server_lockup_by verify_incoming_server_lockup_tx
refused_lockup-unrecorded_example =
    refused_lockup-unrecorded blind parse server_seen waiting_swap server_tx (store waiting_swap)
      refl refl refl (in_mempool waiting_swap.direction refl)

handle_amountless-Outcome_example :
    Outcome services waiting_swap []
      (handle_amountless_update services waiting_swap (store waiting_swap)).1
handle_amountless-Outcome_example =
    handle_amountless-Outcome services waiting_swap (store waiting_swap) ((λ h. refl), tt)

chain_claim-Outcome_example :
    ((any (λ s. str_eq s "c") [] ≡ true)
      × (claim services "c" (store waiting_swap) ≡ (ok tt, store waiting_swap)))
    ⊎ ClaimOutcome table "c" (store waiting_swap) (claim services "c" (store waiting_swap))
chain_claim-Outcome_example = chain_claim-Outcome services "c" (store waiting_swap) (tt, tt)

verify_server_lockup-Paid_example : Paid services waiting_swap server_tx true waiting_swap.direction
unfolding verify_server_lockup_by verify_incoming_server_lockup_tx unblinded_value expected_incoming
    add_u64
verify_server_lockup-Paid_example =
    verify_server_lockup-Paid services waiting_swap server_tx true {u = tt} (omega arith) refl

-- A claim that works, seen from its outside.
claim_broadcasts : (claim services "c" (store waiting_swap)).1.broadcasts ≡ "claim tx" ∷ []
unfolding claim claim_inner send_claim after_broadcast broadcast_claim claim_address_of claimed sent
    notify insert_payment begin_claim end_claim fetch_chain_swap_by_id set_chain_swap_claim ◌>>=◌
claim_broadcasts = refl

-- The swapper's quote is taken.
quote_taken :
    (handle_amountless_update services waiting_swap (store waiting_swap)).1.accepted_quotes
    ≡ ("c", 98250) ∷ []
unfolding handle_amountless_update on_validated accept_quote after_accept validate_amountless_swap
    user_lockup_amount decide_quote server_lockup_amount_estimate sub_u64
    update_accepted_receiver_amount update_actual_payer_amount set_chain_swap_auto_accepted_fees
    ◌>>=◌
quote_taken = refl
