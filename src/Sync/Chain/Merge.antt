-- ===== src/Sync/Chain/Merge.antt =====
-- What a device takes over from another device's update of a chain swap.
use breez_sdk_liquid.Base.{String, some, List, ◌≡◌, arith}
use breez_sdk_liquid.Model.{ChainSwap}
use breez_sdk_liquid.Sync.Chain.{merge_field, chain_merge, chain_updated_fields, from_chain_swap}

-- Merging the fields that an update of a chain swap names into the data of the swap before gives the
-- three fields that may change the values of the update, and leaves all others as they were.
pub chain_merge-updated :
    (swap update : ChainSwap) {fields : List String}
    → chain_updated_fields (some swap) update ≡ some fields
    → chain_merge (from_chain_swap swap) (from_chain_swap update) fields
      ≡ record (from_chain_swap swap) {
        accept_zero_conf = update.accept_zero_conf;
        accepted_receiver_amount_sat = update.accepted_receiver_amount_sat;
        auto_accepted_fees = update.auto_accepted_fees;
      }
unfolding chain_merge merge_field chain_updated_fields from_chain_swap
chain_merge-updated swap update {fields} h = ground arith
