-- ===== src/Tests/SyncData.antt =====
-- Sync data of swaps.
use breez_sdk_liquid.Base.{ℕ, String, Option, some, ◌≡◌, refl, ◌∷◌, [], true}
use breez_sdk_liquid.Model.{SendSwap, ChainSwap}
use breez_sdk_liquid.Sync.Chain.{
  ChainSyncData, chain_merge, chain_updated_fields, from_chain_swap, to_chain_swap,
}
use breez_sdk_liquid.Sync.Chain.Merge.{chain_merge-updated}
use breez_sdk_liquid.Sync.Receive.{ReceiveSyncData, from_receive_swap, to_receive_swap}
use breez_sdk_liquid.Sync.RoundTrip.{sync_data_round_trip}
use breez_sdk_liquid.Sync.Send.{SendSyncData, from_send_swap, to_send_swap}
use breez_sdk_liquid.Tests.Data.{send_swap, chain_swap}

abbrev paid_swap : SendSwap
paid_swap = record send_swap { preimage = some "p" }

abbrev accepted_swap : ChainSwap
accepted_swap = record chain_swap {
  accepted_receiver_amount_sat = some 900;
  auto_accepted_fees = true;
}

abbrev timeout : String → Option ℕ
timeout json = some 2000

chain_merge-updated_example :
    chain_merge
      (from_chain_swap chain_swap)
      (from_chain_swap accepted_swap)
      ("accepted_receiver_amount_sat" ∷ "auto_accepted_fees" ∷ [])
    ≡ record (from_chain_swap chain_swap) {
      accept_zero_conf = true;
      accepted_receiver_amount_sat = some 900;
      auto_accepted_fees = true;
    }
unfolding chain_updated_fields
chain_merge-updated_example = chain_merge-updated chain_swap accepted_swap refl

sync_data_round_trip_example :
    ((d : ChainSyncData) → from_chain_swap (to_chain_swap timeout d) ≡ d)
    × ((d : SendSyncData) → from_send_swap (to_send_swap d) ≡ d)
    × ((d : ReceiveSyncData) → from_receive_swap (to_receive_swap d) ≡ d)
sync_data_round_trip_example = sync_data_round_trip timeout
