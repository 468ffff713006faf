-- ===== src/Send/Transition/Graph.antt =====
-- The life of a send swap as a relation: the moves that `validate_state_transition` accepts,
-- each with its reason.
use breez_sdk_liquid.Base.{◌≡◌, arith}
use breez_sdk_liquid.Base.Result.{ok}
use breez_sdk_liquid.Model.{
  PaymentState, created, pending, complete, failed, timed_out, refund_pending,
}
use breez_sdk_liquid.Send.Transition.{validate_state_transition}

infix 40 ◌⟶◌ ◌⟶*◌
pub data ◌⟶◌ : PaymentState → PaymentState → Type 0 where
  retried : timed_out ⟶ created
  lockup_sent : created ⟶ pending
  lockup_seen : pending ⟶ pending
  claimed_early : created ⟶ complete
  claimed : pending ⟶ complete
  expired : created ⟶ timed_out
  still_expired : timed_out ⟶ timed_out
  refund_started : pending ⟶ refund_pending
  gave_up : {s : PaymentState} → (s ≡ complete → ⊥) → s ⟶ failed

-- Any number of accepted moves.
pub data ◌⟶*◌ (s : PaymentState) : PaymentState → Type 0 where
  here : s ⟶* s
  then : {t u : PaymentState} → s ⟶* t → t ⟶ u → s ⟶* u

ruleset edges = (
  retried, lockup_sent, lockup_seen, claimed_early, claimed, expired, still_expired, refund_started,
  gave_up,
)

pub validate-⟶ : (s t : PaymentState) → validate_state_transition s t ≡ ok tt → s ⟶ t
unfolding validate_state_transition
validate-⟶ s t h = grind (arith, edges)
