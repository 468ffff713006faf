-- ===== src/Sync/RoundTrip.antt =====
-- Sync data turned into a new swap and back.
use breez_sdk_liquid.Base.{ℕ, String, Option, ◌≡◌, refl}
use breez_sdk_liquid.Sync.Chain.{ChainSyncData, from_chain_swap, to_chain_swap}
use breez_sdk_liquid.Sync.Receive.{ReceiveSyncData, from_receive_swap, to_receive_swap}
use breez_sdk_liquid.Sync.Send.{SendSyncData, from_send_swap, to_send_swap}

-- The sync data of a swap of each of the three kinds survives the way to a swap and back.
pub sync_data_round_trip :
    (timeout : String → Option ℕ)
    → ((d : ChainSyncData) → from_chain_swap (to_chain_swap timeout d) ≡ d)
      × ((d : SendSyncData) → from_send_swap (to_send_swap d) ≡ d)
      × ((d : ReceiveSyncData) → from_receive_swap (to_receive_swap d) ≡ d)
unfolding from_chain_swap to_chain_swap from_send_swap to_send_swap from_receive_swap
    to_receive_swap
sync_data_round_trip timeout = ((λ d. refl), (λ d. refl), (λ d. refl))
