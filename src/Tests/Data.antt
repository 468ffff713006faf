-- ===== src/Tests/Data.antt =====
-- Swaps, transactions and wallets to run the development on.
use breez_sdk_liquid.Base.{String, true, false, ℕ, some, none, [], ◌∷◌}
use breez_sdk_liquid.Base.Int.{ℤ, pos, negsuc}
use breez_sdk_liquid.Model.{
  History, SendSwap, ReceiveSwap, ChainSwap, SwapMetadata, pending, created, incoming,
}
use breez_sdk_liquid.Recover.{WalletTx, TxMap}
use breez_sdk_liquid.Utils.{InvoiceLib}

-- The preimage "p" fits the invoice "lnbc".
abbrev pub invoice_lib : InvoiceLib
invoice_lib = record {
  preimage_sha256 = λ p. some p;
  bolt11_payment_hash = λ invoice. some "p";
  bolt12_payment_hash = λ invoice. none;
}

abbrev pub at_height : String → ℕ → History
at_height id h = record { txid = id; height = pos h }

abbrev pub wallet_tx : String → ℤ → WalletTx
wallet_tx id amount = record {
  txid = id;
  balance = ("lbtc", amount) ∷ [];
  timestamp = some 500;
  outputs = some "script" ∷ [];
}

abbrev pub wallet_txs : TxMap
wallet_txs = record {
  outgoing_tx_map = ("lock", wallet_tx "lock" (negsuc 1000)) ∷ [];
  incoming_tx_map = ("paid", wallet_tx "paid" (pos 900)) ∷ [];
}

abbrev pub metadata : SwapMetadata
metadata = record { version = 3; last_updated_at = 70; is_local = true }

abbrev pub send_swap : SendSwap
send_swap = record {
  id = "s";
  invoice = "lnbc";
  bolt12_offer = none;
  payment_hash = some "p";
  destination_pubkey = none;
  description = none;
  preimage = none;
  payer_amount_sat = 1000;
  receiver_amount_sat = 990;
  pair_fees_json = "";
  create_response_json = "";
  lockup_tx_id = some "lock";
  refund_address = none;
  refund_tx_id = none;
  created_at = 100;
  timeout_block_height = 2000;
  state = pending;
  refund_private_key = "key";
  metadata = metadata;
}

abbrev pub receive_swap : ReceiveSwap
receive_swap = record {
  id = "r";
  preimage = "p";
  create_response_json = "";
  claim_private_key = "key";
  invoice = "lnbc";
  bolt12_offer = none;
  payment_hash = some "p";
  destination_pubkey = none;
  description = none;
  payer_note = none;
  payer_amount_sat = 1000;
  receiver_amount_sat = 800;
  pair_fees_json = "";
  claim_fees_sat = 10;
  claim_address = none;
  claim_tx_id = some "claim";
  lockup_tx_id = none;
  mrh_address = "mrh";
  mrh_tx_id = none;
  created_at = 100;
  timeout_block_height = 2000;
  state = created;
  metadata = metadata;
}

abbrev pub chain_swap : ChainSwap
chain_swap = record {
  id = "c";
  direction = incoming;
  claim_address = none;
  lockup_address = "bc1";
  refund_address = none;
  timeout_block_height = 900;
  claim_timeout_block_height = 2000;
  preimage = "p";
  description = none;
  payer_amount_sat = 1000;
  actual_payer_amount_sat = none;
  receiver_amount_sat = 980;
  accepted_receiver_amount_sat = none;
  claim_fees_sat = 10;
  pair_fees_json = "";
  accept_zero_conf = true;
  create_response_json = "";
  server_lockup_tx_id = none;
  user_lockup_tx_id = some "lock";
  claim_tx_id = some "claim";
  refund_tx_id = none;
  created_at = 100;
  state = pending;
  claim_private_key = "key";
  refund_private_key = "key";
  auto_accepted_fees = false;
  metadata = metadata;
}
