-- ===== src/Sync/Chain.antt =====
-- lib/core/src/sync/model/data.rs: the sync data of a chain swap.
pub mod Merge
use breez_sdk_liquid.Base.{
  ℕ, String, Bool, true, false, not, ◌&&◌, ◌||◌, Option, some, none, List, [], ◌∷◌, ◌++◌,
  if◌then◌else◌, ◌==◌, unwrap_or,
}
use breez_sdk_liquid.Base.Text.{str_eq, opt_eq}
use breez_sdk_liquid.Model.{ChainSwap, Direction, created}
use breez_sdk_liquid.Sync.{default_metadata}

pub record ChainSyncData : Type 0 where
  pub swap_id : String
  pub preimage : String
  pub pair_fees_json : String
  pub create_response_json : String
  pub direction : Direction
  pub claim_address : Option String
  pub lockup_address : String
  pub claim_fees_sat : ℕ
  pub claim_private_key : String
  pub refund_private_key : String
  pub timeout_block_height : ℕ
  pub payer_amount_sat : ℕ
  pub receiver_amount_sat : ℕ
  pub accepted_receiver_amount_sat : Option ℕ
  pub accept_zero_conf : Bool
  pub created_at : ℕ
  pub description : Option String
  pub auto_accepted_fees : Bool

-- One named field taken over from the other data.
unfoldable pub merge_field : String → ChainSyncData → ChainSyncData → ChainSyncData
merge_field field d other =
    if str_eq field "accept_zero_conf"
    then record d { accept_zero_conf = other.accept_zero_conf }
    else if str_eq field "accepted_receiver_amount_sat"
    then record d { accepted_receiver_amount_sat = other.accepted_receiver_amount_sat }
    else if str_eq field "auto_accepted_fees"
    then record d { auto_accepted_fees = other.auto_accepted_fees }
    else d

unfoldable pub chain_merge : ChainSyncData → ChainSyncData → List String → ChainSyncData
chain_merge d other [] = d
chain_merge d other (field ∷ fields) = chain_merge (merge_field field d other) other fields

abbrev pub bool_eq : Bool → Bool → Bool
bool_eq true b = b
bool_eq false b = not b

abbrev pub named : Bool → String → List String
named same field = if same then [] else field ∷ []

unfoldable pub chain_updated_fields : Option ChainSwap → ChainSwap → Option (List String)
chain_updated_fields none update = none
chain_updated_fields (some swap) update = some (
    named (bool_eq update.accept_zero_conf swap.accept_zero_conf) "accept_zero_conf"
    ++ (named (opt_eq ◌==◌ update.accepted_receiver_amount_sat swap.accepted_receiver_amount_sat)
          "accepted_receiver_amount_sat"
        ++ named (bool_eq update.auto_accepted_fees swap.auto_accepted_fees) "auto_accepted_fees"))

unfoldable pub from_chain_swap : ChainSwap → ChainSyncData
from_chain_swap s = record {
  swap_id = s.id;
  preimage = s.preimage;
  pair_fees_json = s.pair_fees_json;
  create_response_json = s.create_response_json;
  direction = s.direction;
  claim_address = s.claim_address;
  lockup_address = s.lockup_address;
  claim_fees_sat = s.claim_fees_sat;
  claim_private_key = s.claim_private_key;
  refund_private_key = s.refund_private_key;
  timeout_block_height = s.timeout_block_height;
  payer_amount_sat = s.payer_amount_sat;
  receiver_amount_sat = s.receiver_amount_sat;
  accepted_receiver_amount_sat = s.accepted_receiver_amount_sat;
  accept_zero_conf = s.accept_zero_conf;
  created_at = s.created_at;
  description = s.description;
  auto_accepted_fees = s.auto_accepted_fees;
}

-- `timeout` is `extract_claim_timeout_block_height`, which parses the JSON of the response.
unfoldable pub to_chain_swap : (String → Option ℕ) → ChainSyncData → ChainSwap
to_chain_swap timeout d = record {
  id = d.swap_id;
  preimage = d.preimage;
  pair_fees_json = d.pair_fees_json;
  create_response_json = d.create_response_json;
  direction = d.direction;
  claim_address = d.claim_address;
  lockup_address = d.lockup_address;
  claim_fees_sat = d.claim_fees_sat;
  claim_private_key = d.claim_private_key;
  refund_private_key = d.refund_private_key;
  timeout_block_height = d.timeout_block_height;
  payer_amount_sat = d.payer_amount_sat;
  receiver_amount_sat = d.receiver_amount_sat;
  accepted_receiver_amount_sat = d.accepted_receiver_amount_sat;
  accept_zero_conf = d.accept_zero_conf;
  created_at = d.created_at;
  description = d.description;
  auto_accepted_fees = d.auto_accepted_fees;
  claim_timeout_block_height = unwrap_or (timeout d.create_response_json) 0;
  actual_payer_amount_sat = none;
  state = created;
  refund_address = none;
  server_lockup_tx_id = none;
  user_lockup_tx_id = none;
  claim_tx_id = none;
  refund_tx_id = none;
  metadata = default_metadata;
}
