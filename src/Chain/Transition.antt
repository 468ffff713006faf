-- ===== src/Chain/Transition.antt =====
-- lib/core/src/chain_swap.rs: which payment states a chain swap may move to.
pub mod Graph
pub mod Reach
use breez_sdk_liquid.Base.Result.{Result, ok, err}
use breez_sdk_liquid.Model.{
  PaymentState, created, pending, complete, failed, timed_out, refundable, refund_pending,
  waiting_fee_acceptance,
}
use breez_sdk_liquid.Model.Errors.{PaymentError, generic}

unfoldable pub validate_state_transition :
    PaymentState → PaymentState → Result PaymentError (Unit {0})
validate_state_transition _ created = err generic
validate_state_transition created pending = ok tt
validate_state_transition pending pending = ok tt
validate_state_transition waiting_fee_acceptance pending = ok tt
validate_state_transition _ pending = err generic
validate_state_transition created waiting_fee_acceptance = ok tt
validate_state_transition pending waiting_fee_acceptance = ok tt
validate_state_transition waiting_fee_acceptance waiting_fee_acceptance = ok tt
validate_state_transition _ waiting_fee_acceptance = err generic
validate_state_transition created complete = ok tt
validate_state_transition pending complete = ok tt
validate_state_transition waiting_fee_acceptance complete = ok tt
validate_state_transition refund_pending complete = ok tt
validate_state_transition _ complete = err generic
validate_state_transition created timed_out = ok tt
validate_state_transition _ timed_out = err generic
validate_state_transition created refundable = ok tt
validate_state_transition pending refundable = ok tt
validate_state_transition waiting_fee_acceptance refundable = ok tt
validate_state_transition refund_pending refundable = ok tt
validate_state_transition failed refundable = ok tt
validate_state_transition complete refundable = ok tt
validate_state_transition _ refundable = err generic
validate_state_transition pending refund_pending = ok tt
validate_state_transition waiting_fee_acceptance refund_pending = ok tt
validate_state_transition refundable refund_pending = ok tt
validate_state_transition refund_pending refund_pending = ok tt
validate_state_transition _ refund_pending = err generic
validate_state_transition complete failed = err generic
validate_state_transition _ failed = ok tt
