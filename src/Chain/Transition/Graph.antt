-- ===== src/Chain/Transition/Graph.antt =====
-- The life of a chain swap as a relation: the moves that `validate_state_transition` accepts,
-- each with its reason.
use breez_sdk_liquid.Base.{◌≡◌, arith}
use breez_sdk_liquid.Base.Result.{ok}
use breez_sdk_liquid.Model.{
  PaymentState, created, pending, complete, failed, timed_out, refundable, refund_pending,
  waiting_fee_acceptance,
}
use breez_sdk_liquid.Chain.Transition.{validate_state_transition}

-- A swap that is under way: no refund was offered and it has not ended.
pub data IsLive : PaymentState → Type 0 where
  created_live : IsLive created
  pending_live : IsLive pending
  waiting_live : IsLive waiting_fee_acceptance

infix 40 ◌⟶◌ ◌⟶*◌
pub data ◌⟶◌ : PaymentState → PaymentState → Type 0 where
  lockup_seen : {s : PaymentState} → IsLive s → s ⟶ pending
  fees_changed : {s : PaymentState} → IsLive s → s ⟶ waiting_fee_acceptance
  claimed : {s : PaymentState} → IsLive s → s ⟶ complete
  claimed_late : refund_pending ⟶ complete
  expired : created ⟶ timed_out
  refund_offered : {s : PaymentState} → IsLive s → s ⟶ refundable
  refund_undone : refund_pending ⟶ refundable
  funds_found : failed ⟶ refundable
  funds_found_late : complete ⟶ refundable
  refund_forced : pending ⟶ refund_pending
  refund_declined : waiting_fee_acceptance ⟶ refund_pending
  refund_sent : refundable ⟶ refund_pending
  refund_bumped : refund_pending ⟶ refund_pending
  gave_up : {s : PaymentState} → (s ≡ complete → ⊥) → s ⟶ failed

pub data ◌⟶*◌ (s : PaymentState) : PaymentState → Type 0 where
  here : s ⟶* s
  then : {t u : PaymentState} → s ⟶* t → t ⟶ u → s ⟶* u

ruleset live = (created_live, pending_live, waiting_live)

ruleset edges = (
  lockup_seen, fees_changed, claimed, claimed_late, expired, refund_offered, refund_undone,
  funds_found, funds_found_late, refund_forced, refund_declined, refund_sent, refund_bumped,
  gave_up,
)

pub validate-⟶ : (s t : PaymentState) → validate_state_transition s t ≡ ok tt → s ⟶ t
unfolding validate_state_transition
validate-⟶ s t h = grind (arith, edges, live)
