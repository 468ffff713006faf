-- ===== src/Send/Transition/Reach.antt =====
-- Which payment states a send swap gets to, however many moves it makes.
use breez_sdk_liquid.Base.{List, [], ◌∷◌, ◌≡◌}
use breez_sdk_liquid.Base.Result.{ok}
use breez_sdk_liquid.Model.{
  PaymentState, created, pending, complete, failed, timed_out, refundable, refund_pending,
  waiting_fee_acceptance,
}
use breez_sdk_liquid.Model.Reach.{Reaches, to}
use breez_sdk_liquid.Send.Transition.{validate_state_transition}

-- The states that a send swap ever gets to from a state, by moves that `validate_state_transition`
-- accepts. A refund that was started ends in `failed` only, `complete` and `failed` are final, and
-- only a swap that timed out goes back to `created`.
abbrev pub reachable : PaymentState → List PaymentState
reachable PaymentState.created =
    created ∷ pending ∷ timed_out ∷ refund_pending ∷ complete ∷ failed ∷ []
reachable PaymentState.pending = pending ∷ refund_pending ∷ complete ∷ failed ∷ []
reachable PaymentState.complete = complete ∷ []
reachable PaymentState.failed = failed ∷ []
reachable PaymentState.timed_out =
    created ∷ pending ∷ timed_out ∷ refund_pending ∷ complete ∷ failed ∷ []
reachable PaymentState.refundable = refundable ∷ failed ∷ []
reachable PaymentState.refund_pending = refund_pending ∷ failed ∷ []
reachable PaymentState.waiting_fee_acceptance = waiting_fee_acceptance ∷ failed ∷ []

abbrev move_to :
    (u : PaymentState) {s t : PaymentState}
    → Reaches validate_state_transition s t
    → validate_state_transition t u ≡ ok tt
    → Reaches validate_state_transition s u
move_to = to validate_state_transition
