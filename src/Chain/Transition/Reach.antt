-- ===== src/Chain/Transition/Reach.antt =====
-- Which payment states a chain swap gets to, however many moves it makes.
use breez_sdk_liquid.Base.{List, [], ◌∷◌, ◌≡◌, refl, true, ◌↔◌, All, arith}
use breez_sdk_liquid.Base.Result.{ok}
use breez_sdk_liquid.Model.{
  PaymentState, created, pending, complete, failed, timed_out, refundable, refund_pending,
  waiting_fee_acceptance,
}
use breez_sdk_liquid.Model.Reach.{contains, Reaches, start, to, reaches_iff}
use breez_sdk_liquid.Chain.Transition.{validate_state_transition}

-- The states that a chain swap ever gets to from a state, by moves that `validate_state_transition`
-- accepts. A swap that timed out, failed, is complete or was offered a refund never gets back under
-- way, but each of the last four states is reached from all of them, so that none is final.
abbrev pub reachable : PaymentState → List PaymentState
reachable PaymentState.created =
    created ∷ pending ∷ waiting_fee_acceptance ∷ timed_out ∷ refundable ∷ refund_pending ∷ complete
    ∷ failed ∷ []
reachable PaymentState.pending =
    pending ∷ waiting_fee_acceptance ∷ refundable ∷ refund_pending ∷ complete ∷ failed ∷ []
reachable PaymentState.complete = refundable ∷ refund_pending ∷ complete ∷ failed ∷ []
reachable PaymentState.failed = refundable ∷ refund_pending ∷ complete ∷ failed ∷ []
reachable PaymentState.timed_out = timed_out ∷ refundable ∷ refund_pending ∷ complete ∷ failed ∷ []
reachable PaymentState.refundable = refundable ∷ refund_pending ∷ complete ∷ failed ∷ []
reachable PaymentState.refund_pending = refundable ∷ refund_pending ∷ complete ∷ failed ∷ []
reachable PaymentState.waiting_fee_acceptance =
    pending ∷ waiting_fee_acceptance ∷ refundable ∷ refund_pending ∷ complete ∷ failed ∷ []

abbrev move_to :
    (u : PaymentState) {s t : PaymentState}
    → Reaches validate_state_transition s t
    → validate_state_transition t u ≡ ok tt
    → Reaches validate_state_transition s u
move_to = to validate_state_transition

paths : (s : PaymentState) → All (Reaches validate_state_transition s) (reachable s)
unfolding validate_state_transition
paths PaymentState.created = (
  start,
  (
    move_to pending start refl,
    (
      move_to waiting_fee_acceptance start refl,
      (
        move_to timed_out start refl,
        (
          move_to refundable start refl,
          (
            move_to refund_pending (move_to pending start refl) refl,
            (move_to complete start refl, (move_to failed start refl, tt)),
          ),
        ),
      ),
    ),
  ),
)
paths PaymentState.pending = (
  start,
  (
    move_to waiting_fee_acceptance start refl,
    (
      move_to refundable start refl,
      (
        move_to refund_pending start refl,
        (move_to complete start refl, (move_to failed start refl, tt)),
      ),
    ),
  ),
)
paths PaymentState.complete = (
  move_to refundable start refl,
  (
    move_to refund_pending (move_to refundable start refl) refl,
    (start, (move_to failed (move_to refundable start refl) refl, tt)),
  ),
)
paths PaymentState.failed = (
  move_to refundable start refl,
  (
    move_to refund_pending (move_to refundable start refl) refl,
    (
      move_to complete (move_to refund_pending (move_to refundable start refl) refl) refl,
      (start, tt),
    ),
  ),
)
paths PaymentState.timed_out = (
  start,
  (
    move_to refundable (move_to failed start refl) refl,
    (
      move_to refund_pending (move_to refundable (move_to failed start refl) refl) refl,
      (
        move_to complete
            (move_to refund_pending (move_to refundable (move_to failed start refl) refl) refl)
            refl,
        (move_to failed start refl, tt),
      ),
    ),
  ),
)
paths PaymentState.refundable = (
  start,
  (
    move_to refund_pending start refl,
    (move_to complete (move_to refund_pending start refl) refl, (move_to failed start refl, tt)),
  ),
)
paths PaymentState.refund_pending = (
  move_to refundable start refl,
  (start, (move_to complete start refl, (move_to failed start refl, tt))),
)
paths PaymentState.waiting_fee_acceptance = (
  move_to pending start refl,
  (
    start,
    (
      move_to refundable start refl,
      (
        move_to refund_pending start refl,
        (move_to complete start refl, (move_to failed start refl, tt)),
      ),
    ),
  ),
)

own : (s : PaymentState) → contains (reachable s) s ≡ true
own s = ground arith

closed :
    (s t u : PaymentState)
    → contains (reachable s) t ≡ true
    → validate_state_transition t u ≡ ok tt
    → contains (reachable s) u ≡ true
unfolding validate_state_transition
closed s t u h e = ground arith

-- However many moves `validate_state_transition` accepts, a chain swap gets to exactly the listed
-- states: from `complete`, `failed`, `refundable` and `refund_pending` to these four, from
-- `timed_out` to them too, from `pending` and `waiting_fee_acceptance` to each other and to the four,
-- and from `created` to every state. So a swap that ended, that was offered a refund or that timed
-- out never gets under way again.
pub chain_reaches_iff :
    (s t : PaymentState) → Reaches validate_state_transition s t ↔ (contains (reachable s) t ≡ true)
chain_reaches_iff = reaches_iff validate_state_transition reachable own paths closed
