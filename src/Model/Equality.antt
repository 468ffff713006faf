-- ===== src/Model/Equality.antt =====
-- The derived `PartialEq` of the swaps, which ignores `metadata`.
use breez_sdk_liquid.Base.{Bool, true, false, not, ◌&&◌, ◌==◌, List, [], ◌∷◌, all}
use breez_sdk_liquid.Base.Text.{str_eq, opt_eq}
use breez_sdk_liquid.Model.{
  SendSwap, ReceiveSwap, ChainSwap, Direction, incoming, outgoing, state_eq,
}

pub send_swap_eq : SendSwap → SendSwap → Bool
send_swap_eq a b =
    str_eq a.id b.id
    && (str_eq a.invoice b.invoice
        && (opt_eq str_eq a.bolt12_offer b.bolt12_offer
            && (opt_eq str_eq a.payment_hash b.payment_hash
                && (opt_eq str_eq a.destination_pubkey b.destination_pubkey
                    && (opt_eq str_eq a.description b.description
                        && (opt_eq str_eq a.preimage b.preimage
                            && (a.payer_amount_sat == b.payer_amount_sat
                                && (a.receiver_amount_sat == b.receiver_amount_sat
                                    && (str_eq a.pair_fees_json b.pair_fees_json
                                        && (str_eq a.create_response_json b.create_response_json
                                            && (opt_eq str_eq a.lockup_tx_id b.lockup_tx_id
                                                && (opt_eq str_eq a.refund_address b.refund_address
                                                    && (opt_eq str_eq a.refund_tx_id b.refund_tx_id
                                                        && (a.created_at == b.created_at
                                                            && (a.timeout_block_height
                                                            == b.timeout_block_height
                                                            && (state_eq a.state b.state
                                                            && str_eq a.refund_private_key
                                                            b.refund_private_key))))))))))))))))

abbrev pub bool_eq : Bool → Bool → Bool
bool_eq true b = b
bool_eq false b = not b

abbrev pub direction_eq : Direction → Direction → Bool
direction_eq incoming incoming = true
direction_eq outgoing outgoing = true
direction_eq _ _ = false

abbrev all_true : List Bool → Bool
all_true tests = all (λ (test : Bool). test) tests

pub receive_swap_eq : ReceiveSwap → ReceiveSwap → Bool
receive_swap_eq a b = all_true (
    str_eq a.id b.id
    ∷ str_eq a.preimage b.preimage
    ∷ str_eq a.create_response_json b.create_response_json
    ∷ str_eq a.claim_private_key b.claim_private_key
    ∷ str_eq a.invoice b.invoice
    ∷ opt_eq str_eq a.bolt12_offer b.bolt12_offer
    ∷ opt_eq str_eq a.payment_hash b.payment_hash
    ∷ opt_eq str_eq a.destination_pubkey b.destination_pubkey
    ∷ opt_eq str_eq a.description b.description
    ∷ opt_eq str_eq a.payer_note b.payer_note
    ∷ (a.payer_amount_sat == b.payer_amount_sat)
    ∷ (a.receiver_amount_sat == b.receiver_amount_sat)
    ∷ str_eq a.pair_fees_json b.pair_fees_json
    ∷ (a.claim_fees_sat == b.claim_fees_sat)
    ∷ opt_eq str_eq a.claim_address b.claim_address
    ∷ opt_eq str_eq a.claim_tx_id b.claim_tx_id
    ∷ opt_eq str_eq a.lockup_tx_id b.lockup_tx_id
    ∷ str_eq a.mrh_address b.mrh_address
    ∷ opt_eq str_eq a.mrh_tx_id b.mrh_tx_id
    ∷ (a.created_at == b.created_at)
    ∷ (a.timeout_block_height == b.timeout_block_height)
    ∷ state_eq a.state b.state
    ∷ [])

pub chain_swap_eq : ChainSwap → ChainSwap → Bool
chain_swap_eq a b = all_true (
    str_eq a.id b.id
    ∷ direction_eq a.direction b.direction
    ∷ opt_eq str_eq a.claim_address b.claim_address
    ∷ str_eq a.lockup_address b.lockup_address
    ∷ opt_eq str_eq a.refund_address b.refund_address
    ∷ (a.timeout_block_height == b.timeout_block_height)
    ∷ (a.claim_timeout_block_height == b.claim_timeout_block_height)
    ∷ str_eq a.preimage b.preimage
    ∷ opt_eq str_eq a.description b.description
    ∷ (a.payer_amount_sat == b.payer_amount_sat)
    ∷ opt_eq ◌==◌ a.actual_payer_amount_sat b.actual_payer_amount_sat
    ∷ (a.receiver_amount_sat == b.receiver_amount_sat)
    ∷ opt_eq ◌==◌ a.accepted_receiver_amount_sat b.accepted_receiver_amount_sat
    ∷ (a.claim_fees_sat == b.claim_fees_sat)
    ∷ str_eq a.pair_fees_json b.pair_fees_json
    ∷ bool_eq a.accept_zero_conf b.accept_zero_conf
    ∷ str_eq a.create_response_json b.create_response_json
    ∷ opt_eq str_eq a.server_lockup_tx_id b.server_lockup_tx_id
    ∷ opt_eq str_eq a.user_lockup_tx_id b.user_lockup_tx_id
    ∷ opt_eq str_eq a.claim_tx_id b.claim_tx_id
    ∷ opt_eq str_eq a.refund_tx_id b.refund_tx_id
    ∷ (a.created_at == b.created_at)
    ∷ state_eq a.state b.state
    ∷ str_eq a.claim_private_key b.claim_private_key
    ∷ str_eq a.refund_private_key b.refund_private_key
    ∷ bool_eq a.auto_accepted_fees b.auto_accepted_fees
    ∷ [])
