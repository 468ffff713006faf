-- ===== src/Sync/Receive.antt =====
-- lib/core/src/sync/model/data.rs: the sync data of a receive swap.
use breez_sdk_liquid.Base.{ℕ, String, Option, none, some, List, []}
use breez_sdk_liquid.Model.{ReceiveSwap, created}
use breez_sdk_liquid.Sync.{default_metadata}

pub record ReceiveSyncData : Type 0 where
  pub swap_id : String
  pub invoice : String
  pub preimage : String
  pub pair_fees_json : String
  pub create_response_json : String
  pub claim_fees_sat : ℕ
  pub claim_private_key : String
  pub payer_amount_sat : ℕ
  pub receiver_amount_sat : ℕ
  pub mrh_address : String
  pub timeout_block_height : ℕ
  pub created_at : ℕ
  pub bolt12_offer : Option String
  pub payment_hash : Option String
  pub description : Option String
  pub payer_note : Option String
  pub destination_pubkey : Option String

unfoldable pub from_receive_swap : ReceiveSwap → ReceiveSyncData
from_receive_swap s = record {
  swap_id = s.id;
  invoice = s.invoice;
  preimage = s.preimage;
  pair_fees_json = s.pair_fees_json;
  create_response_json = s.create_response_json;
  claim_fees_sat = s.claim_fees_sat;
  claim_private_key = s.claim_private_key;
  payer_amount_sat = s.payer_amount_sat;
  receiver_amount_sat = s.receiver_amount_sat;
  mrh_address = s.mrh_address;
  timeout_block_height = s.timeout_block_height;
  created_at = s.created_at;
  bolt12_offer = s.bolt12_offer;
  payment_hash = s.payment_hash;
  description = s.description;
  payer_note = s.payer_note;
  destination_pubkey = s.destination_pubkey;
}

unfoldable pub to_receive_swap : ReceiveSyncData → ReceiveSwap
to_receive_swap d = record {
  id = d.swap_id;
  invoice = d.invoice;
  preimage = d.preimage;
  pair_fees_json = d.pair_fees_json;
  create_response_json = d.create_response_json;
  claim_fees_sat = d.claim_fees_sat;
  claim_private_key = d.claim_private_key;
  payer_amount_sat = d.payer_amount_sat;
  receiver_amount_sat = d.receiver_amount_sat;
  mrh_address = d.mrh_address;
  timeout_block_height = d.timeout_block_height;
  created_at = d.created_at;
  bolt12_offer = d.bolt12_offer;
  payment_hash = d.payment_hash;
  description = d.description;
  payer_note = d.payer_note;
  destination_pubkey = d.destination_pubkey;
  state = created;
  claim_address = none;
  claim_tx_id = none;
  lockup_tx_id = none;
  mrh_tx_id = none;
  metadata = default_metadata;
}

-- No field of a receive swap is synced after its creation.
abbrev pub receive_updated_fields : Option ReceiveSwap → ReceiveSwap → Option (List String)
receive_updated_fields none update = none
receive_updated_fields (some swap) update = some []
