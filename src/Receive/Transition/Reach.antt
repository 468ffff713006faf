-- ===== src/Receive/Transition/Reach.antt =====
-- Which payment states a receive swap gets to, however many moves it makes.
use breez_sdk_liquid.Base.{List, [], ◌∷◌, ◌≡◌, refl, true, ◌↔◌, All, arith}
use breez_sdk_liquid.Base.Result.{ok}
use breez_sdk_liquid.Model.{
  PaymentState, created, pending, complete, failed, timed_out, refundable, refund_pending,
  waiting_fee_acceptance,
}
use breez_sdk_liquid.Model.Reach.{contains, Reaches, start, to, reaches_iff}
use breez_sdk_liquid.Receive.Transition.{validate_state_transition}

-- The states that a receive swap ever gets to from a state, by moves that
-- `validate_state_transition` accepts. `complete` and `failed` are final, a swap that timed out can
-- only fail, and no swap is refunded or waits for fees unless it did from the start.
abbrev pub reachable : PaymentState → List PaymentState
reachable PaymentState.created = created ∷ pending ∷ timed_out ∷ complete ∷ failed ∷ []
reachable PaymentState.pending = pending ∷ complete ∷ failed ∷ []
reachable PaymentState.complete = complete ∷ []
reachable PaymentState.failed = failed ∷ []
reachable PaymentState.timed_out = timed_out ∷ failed ∷ []
reachable PaymentState.refundable = refundable ∷ failed ∷ []
reachable PaymentState.refund_pending = refund_pending ∷ failed ∷ []
reachable PaymentState.waiting_fee_acceptance = waiting_fee_acceptance ∷ failed ∷ []

abbrev move_to :
    (u : PaymentState) {s t : PaymentState}
    → Reaches validate_state_transition s t
    → validate_state_transition t u ≡ ok tt
    → Reaches validate_state_transition s u
move_to = to validate_state_transition

paths : (s : PaymentState) → All (Reaches validate_state_transition s) (reachable s)
unfolding validate_state_transition
paths PaymentState.created = (
  start,
  (
    move_to pending start refl,
    (move_to timed_out start refl, (move_to complete start refl, (move_to failed start refl, tt))),
  ),
)
paths PaymentState.pending = (start, (move_to complete start refl, (move_to failed start refl, tt)))
paths PaymentState.complete = (start, tt)
paths PaymentState.failed = (start, tt)
paths PaymentState.timed_out = (start, (move_to failed start refl, tt))
paths PaymentState.refundable = (start, (move_to failed start refl, tt))
paths PaymentState.refund_pending = (start, (move_to failed start refl, tt))
paths PaymentState.waiting_fee_acceptance = (start, (move_to failed start refl, tt))

own : (s : PaymentState) → contains (reachable s) s ≡ true
own s = ground arith

closed :
    (s t u : PaymentState)
    → contains (reachable s) t ≡ true
    → validate_state_transition t u ≡ ok tt
    → contains (reachable s) u ≡ true
unfolding validate_state_transition
closed s t u h e = ground arith

-- However many moves `validate_state_transition` accepts, a receive swap gets to exactly the listed
-- states: from `complete` and from `failed` to no other, from `timed_out` to `failed`, from `pending`
-- to `complete` and `failed`, and from `created` to all of these. No swap gets to `refundable`,
-- `refund_pending` or `waiting_fee_acceptance` from another state.
pub receive_reaches_iff :
    (s t : PaymentState) → Reaches validate_state_transition s t ↔ (contains (reachable s) t ≡ true)
receive_reaches_iff = reaches_iff validate_state_transition reachable own paths closed
