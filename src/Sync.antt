-- ===== src/Sync.antt =====
-- lib/core/src/sync/model/data.rs: what the realtime sync keeps of a swap.
pub mod Chain
pub mod Send
pub mod Receive
pub mod RoundTrip
use breez_sdk_liquid.Base.{false}
use breez_sdk_liquid.Model.{SwapMetadata}

-- `SwapMetadata::default()`
abbrev pub default_metadata : SwapMetadata
default_metadata = record { version = 0; last_updated_at = 0; is_local = false }
