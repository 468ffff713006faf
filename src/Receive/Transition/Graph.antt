-- ===== src/Receive/Transition/Graph.antt =====
-- The life of a receive swap as a relation: the moves that `validate_state_transition` accepts,
-- each with its reason.
use breez_sdk_liquid.Base.{◌≡◌, arith}
use breez_sdk_liquid.Base.Result.{ok}
use breez_sdk_liquid.Model.{PaymentState, created, pending, complete, failed, timed_out}
use breez_sdk_liquid.Receive.Transition.{validate_state_transition}

infix 40 ◌⟶◌ ◌⟶*◌
pub data ◌⟶◌ : PaymentState → PaymentState → Type 0 where
  lockup_seen : created ⟶ pending
  claim_sent : pending ⟶ pending
  paid_early : created ⟶ complete
  claimed : pending ⟶ complete
  expired : created ⟶ timed_out
  still_expired : timed_out ⟶ timed_out
  gave_up : {s : PaymentState} → (s ≡ complete → ⊥) → s ⟶ failed

pub data ◌⟶*◌ (s : PaymentState) : PaymentState → Type 0 where
  here : s ⟶* s
  then : {t u : PaymentState} → s ⟶* t → t ⟶ u → s ⟶* u

ruleset edges = (lockup_seen, claim_sent, paid_early, claimed, expired, still_expired, gave_up)

pub validate-⟶ : (s t : PaymentState) → validate_state_transition s t ≡ ok tt → s ⟶ t
unfolding validate_state_transition
validate-⟶ s t h = grind (arith, edges)
