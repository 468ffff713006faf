-- ===== src/Sync/Send.antt =====
-- lib/core/src/sync/model/data.rs: the sync data of a send swap. Which of its fields an update names
-- is `updated_fields` of Send/Store/Insert.
pub mod Merge
use breez_sdk_liquid.Base.{ℕ, String, Option, some, none, List, [], ◌∷◌, if◌then◌else◌, or_else}
use breez_sdk_liquid.Base.Text.{str_eq}
use breez_sdk_liquid.Model.{SendSwap, created}
use breez_sdk_liquid.Sync.{default_metadata}

pub record SendSyncData : Type 0 where
  pub swap_id : String
  pub invoice : String
  pub pair_fees_json : String
  pub create_response_json : String
  pub refund_private_key : String
  pub payer_amount_sat : ℕ
  pub receiver_amount_sat : ℕ
  pub timeout_block_height : ℕ
  pub created_at : ℕ
  pub preimage : Option String
  pub bolt12_offer : Option String
  pub payment_hash : Option String
  pub description : Option String
  pub destination_pubkey : Option String

-- `clone_if_set`
abbrev pub clone_if_set {ℓ} : {A : Type ℓ} → Option A → Option A → Option A
clone_if_set old new = or_else new old

unfoldable pub send_merge : SendSyncData → SendSyncData → List String → SendSyncData
send_merge d other [] = d
send_merge d other (field ∷ fields) =
    let merged : SendSyncData =
      if str_eq field "preimage"
      then record d { preimage = clone_if_set d.preimage other.preimage }
      else d in
    send_merge merged other fields

unfoldable pub from_send_swap : SendSwap → SendSyncData
from_send_swap s = record {
  swap_id = s.id;
  invoice = s.invoice;
  pair_fees_json = s.pair_fees_json;
  create_response_json = s.create_response_json;
  refund_private_key = s.refund_private_key;
  payer_amount_sat = s.payer_amount_sat;
  receiver_amount_sat = s.receiver_amount_sat;
  timeout_block_height = s.timeout_block_height;
  created_at = s.created_at;
  preimage = s.preimage;
  bolt12_offer = s.bolt12_offer;
  payment_hash = s.payment_hash;
  description = s.description;
  destination_pubkey = s.destination_pubkey;
}

unfoldable pub to_send_swap : SendSyncData → SendSwap
to_send_swap d = record {
  id = d.swap_id;
  invoice = d.invoice;
  pair_fees_json = d.pair_fees_json;
  create_response_json = d.create_response_json;
  refund_private_key = d.refund_private_key;
  payer_amount_sat = d.payer_amount_sat;
  receiver_amount_sat = d.receiver_amount_sat;
  timeout_block_height = d.timeout_block_height;
  created_at = d.created_at;
  preimage = d.preimage;
  bolt12_offer = d.bolt12_offer;
  payment_hash = d.payment_hash;
  description = d.description;
  destination_pubkey = d.destination_pubkey;
  state = created;
  lockup_tx_id = none;
  refund_address = none;
  refund_tx_id = none;
  metadata = default_metadata;
}
