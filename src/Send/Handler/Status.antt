-- ===== src/Send/Handler/Status.antt =====
-- lib/core/src/send_swap.rs: what a status update of the swapper does to a send swap.
use breez_sdk_liquid.Base.{String, Option, some, none, if◌then◌else◌, ◌||◌, not, true, false}
use breez_sdk_liquid.Base.Result.{ok, err, to_option}
use breez_sdk_liquid.Model.{complete, failed, refund_pending, SendSwap}
use breez_sdk_liquid.Model.Equality.{send_swap_eq}
use breez_sdk_liquid.Model.Errors.{generic}
use breez_sdk_liquid.Send.Store.{Action, done, fail, lift, attempt, ◌>>=◌, ◌>>◌}
use breez_sdk_liquid.Send.Store.Insert.{insert_or_update_send_swap}
use breez_sdk_liquid.Send.Handler.{
  Services, from_any, fetch, update_swap_lnurl_info, notify, update_swap_info, cooperate_claim,
  refund,
}
use breez_sdk_liquid.Utils.{verify_payment_hash}

-- The swapper's library: the states that the handler tells apart.
pub data SubSwapStates : Type 0 where
  invoice_set transaction_claim_pending transaction_claimed : SubSwapStates
  transaction_lockup_failed invoice_failed_to_pay swap_expired : SubSwapStates
  unhandled : String → SubSwapStates

module _ (services : Services) (parse : String → Option SubSwapStates) where
  -- An update without a check of the state transition.
  unfoldable pub update_swap : SendSwap → Action (Unit {0})
  update_swap updated_swap = do
    swap ← fetch services updated_swap.id
    lnurl_info_updated ← update_swap_lnurl_info services swap updated_swap
    elim (not (send_swap_eq updated_swap swap) || lnurl_info_updated) [
      | false ↦ done tt
      | true ↦ do
        insert_or_update_send_swap services.table updated_swap
        notify services updated_swap.id
    ]

  -- The preimage that a cooperative claim gave.
  unfoldable pub claimed_preimage : SendSwap → Action (Option String)
  claimed_preimage swap = elim (services.get_send_claim_tx_details swap) [
    | err failure ↦ done none
    | ok preimage ↦ do
      result ← attempt (cooperate_claim services swap preimage)
      elim result [ ok _ ↦ done (some preimage) | err failure ↦ done none ]
  ]

  -- The preimage that the swapper tells, if it fits the invoice.
  unfoldable pub fetched_preimage : SendSwap → Action String
  fetched_preimage swap = do
    preimage ← from_any (services.get_submarine_preimage swap.id)
    lift (verify_payment_hash services.invoice_lib preimage swap.invoice)
    done preimage

  unfoldable pub on_claim_pending : SendSwap → Action (Unit {0})
  on_claim_pending swap = if not swap.metadata.is_local then done tt else do
    known ← claimed_preimage swap
    preimage ← elim known [ some preimage ↦ done preimage | none ↦ fetched_preimage swap ]
    update_swap_info services swap.id complete (some preimage) none none

  unfoldable pub on_claimed : SendSwap → Action (Unit {0})
  on_claimed swap = elim (swap.preimage) [
    | some _ ↦ done tt
    | none ↦ do recovered ← from_any (services.recover_from_onchain swap); update_swap recovered
  ]

  -- A swap that can not be saved: its lockup is refunded, or it fails if there is none.
  unfoldable pub on_unrecoverable : String → SendSwap → Action (Unit {0})
  on_unrecoverable id swap = elim (swap.lockup_tx_id) [
    | none ↦ update_swap_info services id failed none none none
    | some _ ↦ elim (swap.refund_tx_id) [
      | some _ ↦ done tt
      | none ↦ do
        result ← attempt (refund services swap true)
        update_swap_info services swap.id refund_pending none none (to_option result)
    ]
  ]

  unfoldable pub on_state : String → SendSwap → SubSwapStates → Action (Unit {0})
  on_state id swap SubSwapStates.invoice_set = done tt
  on_state id swap SubSwapStates.transaction_claim_pending = on_claim_pending swap
  on_state id swap SubSwapStates.transaction_claimed = on_claimed swap
  on_state id swap SubSwapStates.transaction_lockup_failed = on_unrecoverable id swap
  on_state id swap SubSwapStates.invoice_failed_to_pay = on_unrecoverable id swap
  on_state id swap SubSwapStates.swap_expired = on_unrecoverable id swap
  on_state id swap (SubSwapStates.unhandled status) = done tt

  unfoldable pub on_new_status : String → String → Action (Unit {0})
  on_new_status id status = elim (parse status) [
    | none ↦ fail generic
    | some swap_state ↦ do swap ← fetch services id; on_state id swap swap_state
  ]
