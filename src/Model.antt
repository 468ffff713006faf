-- ===== src/Model.antt =====
-- lib/core/src/model.rs: payment states, the transaction history of a script, and the three kinds
-- of swap that the SDK keeps. A transaction id is its hexadecimal text, which is what the source's
-- `txid.to_string()` gives.
pub mod Equality
pub mod Errors
pub mod Reach
use breez_sdk_liquid.Base.{ℕ, String, Bool, Option, ◌&&◌, is_none, ◌==◌}
use breez_sdk_liquid.Base.Int.{ℤ, pos, ltb_ℤ}

pub data PaymentState : Type 0 where
  created pending complete failed timed_out refundable refund_pending : PaymentState
  waiting_fee_acceptance : PaymentState

-- The discriminants of the enumeration.
abbrev pub state_code : PaymentState → ℕ
state_code PaymentState.created = 0
state_code PaymentState.pending = 1
state_code PaymentState.complete = 2
state_code PaymentState.failed = 3
state_code PaymentState.timed_out = 4
state_code PaymentState.refundable = 5
state_code PaymentState.refund_pending = 6
state_code PaymentState.waiting_fee_acceptance = 7

abbrev pub state_eq : PaymentState → PaymentState → Bool
state_eq a b = state_code a == state_code b

pub data Direction : Type 0 where
  incoming outgoing : Direction

-- `History<T>`, for Liquid and for Bitcoin transaction ids. A height of 0 or below is unconfirmed.
pub record History : Type 0 where
  pub txid : String
  pub height : ℤ

abbrev pub confirmed : History → Bool
confirmed h = ltb_ℤ (pos 0) h.height

pub record SwapMetadata : Type 0 where
  pub version : ℕ
  pub last_updated_at : ℕ
  pub is_local : Bool

pub record SendSwap : Type 0 where
  pub id : String
  pub invoice : String
  pub bolt12_offer : Option String
  pub payment_hash : Option String
  pub destination_pubkey : Option String
  pub description : Option String
  pub preimage : Option String
  pub payer_amount_sat : ℕ
  pub receiver_amount_sat : ℕ
  pub pair_fees_json : String
  pub create_response_json : String
  pub lockup_tx_id : Option String
  pub refund_address : Option String
  pub refund_tx_id : Option String
  pub created_at : ℕ
  pub timeout_block_height : ℕ
  pub state : PaymentState
  pub refund_private_key : String
  pub metadata : SwapMetadata

pub record ReceiveSwap : Type 0 where
  pub id : String
  pub preimage : String
  pub create_response_json : String
  pub claim_private_key : String
  pub invoice : String
  pub bolt12_offer : Option String
  pub payment_hash : Option String
  pub destination_pubkey : Option String
  pub description : Option String
  pub payer_note : Option String
  pub payer_amount_sat : ℕ
  pub receiver_amount_sat : ℕ
  pub pair_fees_json : String
  pub claim_fees_sat : ℕ
  pub claim_address : Option String
  pub claim_tx_id : Option String
  pub lockup_tx_id : Option String
  pub mrh_address : String
  pub mrh_tx_id : Option String
  pub created_at : ℕ
  pub timeout_block_height : ℕ
  pub state : PaymentState
  pub metadata : SwapMetadata

pub record ChainSwap : Type 0 where
  pub id : String
  pub direction : Direction
  pub claim_address : Option String
  pub lockup_address : String
  pub refund_address : Option String
  pub timeout_block_height : ℕ
  pub claim_timeout_block_height : ℕ
  pub preimage : String
  pub description : Option String
  pub payer_amount_sat : ℕ
  pub actual_payer_amount_sat : Option ℕ
  pub receiver_amount_sat : ℕ
  pub accepted_receiver_amount_sat : Option ℕ
  pub claim_fees_sat : ℕ
  pub pair_fees_json : String
  pub accept_zero_conf : Bool
  pub create_response_json : String
  pub server_lockup_tx_id : Option String
  pub user_lockup_tx_id : Option String
  pub claim_tx_id : Option String
  pub refund_tx_id : Option String
  pub created_at : ℕ
  pub state : PaymentState
  pub claim_private_key : String
  pub refund_private_key : String
  pub auto_accepted_fees : Bool
  pub metadata : SwapMetadata

abbrev pub is_waiting_fee_acceptance : ChainSwap → Bool
is_waiting_fee_acceptance s = (s.payer_amount_sat == 0) && is_none s.accepted_receiver_amount_sat

pub data Swap : Type 0 where
  chain : ChainSwap → Swap
  send : SendSwap → Swap
  receive : ReceiveSwap → Swap

abbrev pub swap_id : Swap → String
swap_id (Swap.chain s) = s.id
swap_id (Swap.send s) = s.id
swap_id (Swap.receive s) = s.id

abbrev pub version : Swap → ℕ
version (Swap.chain s) = s.metadata.version
version (Swap.send s) = s.metadata.version
version (Swap.receive s) = s.metadata.version

abbrev pub set_version : Swap → ℕ → Swap
set_version (Swap.chain s) v =
    Swap.chain (record s { metadata = record (s.metadata) { version = v } })
set_version (Swap.send s) v =
    Swap.send (record s { metadata = record (s.metadata) { version = v } })
set_version (Swap.receive s) v =
    Swap.receive (record s { metadata = record (s.metadata) { version = v } })

abbrev pub last_updated_at : Swap → ℕ
last_updated_at (Swap.chain s) = s.metadata.last_updated_at
last_updated_at (Swap.send s) = s.metadata.last_updated_at
last_updated_at (Swap.receive s) = s.metadata.last_updated_at
