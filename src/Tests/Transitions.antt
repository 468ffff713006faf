-- ===== src/Tests/Transitions.antt =====
-- Moves of swaps between payment states.
use breez_sdk_liquid.Base.{true, ◌≡◌, ◌↔◌}
use breez_sdk_liquid.Model.{created, pending, complete, refundable}
use breez_sdk_liquid.Model.Reach.{contains, Reaches}
use breez_sdk_liquid.Send.Transition as SendTransition
use breez_sdk_liquid.Send.Transition.Reach as SendReach
use breez_sdk_liquid.Receive.Transition as ReceiveTransition
use breez_sdk_liquid.Receive.Transition.Reach as ReceiveReach
use breez_sdk_liquid.Chain.Transition as ChainTransition
use breez_sdk_liquid.Chain.Transition.Reach as ChainReach

receive_reaches_iff_example :
    Reaches ReceiveTransition.validate_state_transition created complete
    ↔ (contains (ReceiveReach.reachable created) complete ≡ true)
receive_reaches_iff_example = ReceiveReach.receive_reaches_iff created complete

chain_reaches_iff_example :
    Reaches ChainTransition.validate_state_transition refundable pending
    ↔ (contains (ChainReach.reachable refundable) pending ≡ true)
chain_reaches_iff_example = ChainReach.chain_reaches_iff refundable pending
