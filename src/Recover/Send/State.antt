-- ===== src/Recover/Send/State.antt =====
-- Which state a send swap is derived to be in.
use breez_sdk_liquid.Base.{
  String, Bool, true, false, Option, some, none, ◌≡◌, ◌↔◌, ◌⊎◌, arith, is_some,
}
use breez_sdk_liquid.Model.{History, confirmed, pending, complete, failed, refund_pending}
use breez_sdk_liquid.Recover.Send.{RecoveredOnchainDataSend, derive_partial_state}

abbrev refund_is_confirmed : Option History → Bool
refund_is_confirmed (some h) = confirmed h
refund_is_confirmed none = false

-- Each outcome with the evidence that it rests on. `complete` needs the lockup and the preimage;
-- `failed` needs a confirmed refund, or that the swap expired before any lockup; a refund is due
-- once one was sent or the swap expired.
pub record Outcomes (d : RecoveredOnchainDataSend) (preimage : Option String) (is_expired : Bool)
    : Type 0 where
  pub is_complete :
      (derive_partial_state d preimage is_expired ≡ some complete)
      ↔ ((is_some d.lockup_tx_id ≡ true) × (is_some preimage ≡ true))
  pub is_failed : (derive_partial_state d preimage is_expired ≡ some failed) ↔ (
      (is_some d.lockup_tx_id ≡ false) × (is_expired ≡ true)
      ⊎ (is_some d.lockup_tx_id ≡ true)
        × (is_some preimage ≡ false)
        × (refund_is_confirmed d.refund_tx_id ≡ true))
  pub is_refund_pending : (derive_partial_state d preimage is_expired ≡ some refund_pending) ↔ (
      (is_some d.lockup_tx_id ≡ true)
      × (is_some preimage ≡ false)
      × (refund_is_confirmed d.refund_tx_id ≡ false)
      × ((is_some d.refund_tx_id ≡ true) ⊎ (is_expired ≡ true)))
  pub is_pending : (derive_partial_state d preimage is_expired ≡ some pending) ↔ (
      (is_some d.lockup_tx_id ≡ true)
      × (is_some preimage ≡ false)
      × (is_some d.refund_tx_id ≡ false)
      × (is_expired ≡ false))
  pub is_unknown :
      (derive_partial_state d preimage is_expired ≡ none)
      ↔ ((is_some d.lockup_tx_id ≡ false) × (is_expired ≡ false))

-- A send swap is derived to be complete, failed, refunding, pending or unknown exactly on the
-- evidence that `Outcomes` names for each.
pub send_derive_outcomes :
    (d : RecoveredOnchainDataSend) (preimage : Option String) (is_expired : Bool)
    → Outcomes d preimage is_expired
unfolding derive_partial_state
send_derive_outcomes d preimage is_expired = ground arith
