-- ===== src/Sync/Send/Merge.antt =====
-- What a device takes over from another device's update of a send swap.
use breez_sdk_liquid.Base.{String, some, List, ◌≡◌, arith, or_else, inl, inr, Bool-cases}
use breez_sdk_liquid.Base.Text.{str_eq, opt_eq, opt_str_eq→eq}
use breez_sdk_liquid.Model.{SendSwap}
use breez_sdk_liquid.Send.Store.Insert.{updated_fields}
use breez_sdk_liquid.Sync.Send.{send_merge, from_send_swap}

-- Merging the fields that an update of a send swap names into the data of the swap before gives it
-- the preimage of the update, if that has one, and leaves all else as it was.
pub send_merge-updated :
    (swap update : SendSwap) {fields : List String}
    → updated_fields (some swap) update ≡ some fields
    → send_merge (from_send_swap swap) (from_send_swap update) fields
      ≡ record (from_send_swap swap) { preimage = or_else update.preimage swap.preimage }
unfolding send_merge updated_fields from_send_swap
send_merge-updated swap update {fields} h =
    elim (Bool-cases (opt_eq str_eq update.preimage swap.preimage)) [
      | inl same ↦ let e = opt_str_eq→eq update.preimage swap.preimage same in ground arith
      | inr other ↦ ground arith
    ]
