-- ===== src/Recover/Receive/State.antt =====
-- Which state a receive swap is derived to be in.
use breez_sdk_liquid.Base.{Bool, true, false, Option, some, none, ◌≡◌, ◌↔◌, ◌⊎◌, arith, is_some}
use breez_sdk_liquid.Model.{History, confirmed, pending, complete, failed}
use breez_sdk_liquid.Recover.Receive.{RecoveredOnchainDataReceive, derive_partial_state}

abbrev is_confirmed : Option History → Bool
is_confirmed (some h) = confirmed h
is_confirmed none = false

-- The transaction that pays the receiver: the claim of a lockup, or else the MRH payment.
abbrev payment_tx : RecoveredOnchainDataReceive → Option History
payment_tx d = elim (d.lockup_tx_id) [ some _ ↦ d.claim_tx_id | none ↦ d.mrh_tx_id ]

-- Each outcome with the evidence that it rests on: what the receiver is paid by decides, and where
-- there is nothing yet, whether the swap expired and whether a lockup is there.
pub record Outcomes (d : RecoveredOnchainDataReceive) (is_expired : Bool) : Type 0 where
  pub is_complete :
      (derive_partial_state d is_expired ≡ some complete) ↔ (is_confirmed (payment_tx d) ≡ true)
  pub is_failed :
      (derive_partial_state d is_expired ≡ some failed)
      ↔ ((is_some (payment_tx d) ≡ false) × (is_expired ≡ true))
  pub is_pending : (derive_partial_state d is_expired ≡ some pending) ↔ (
      (is_some (payment_tx d) ≡ true) × (is_confirmed (payment_tx d) ≡ false)
      ⊎ (is_some (payment_tx d) ≡ false) × (is_expired ≡ false) × (is_some d.lockup_tx_id ≡ true))
  pub is_unknown :
      (derive_partial_state d is_expired ≡ none)
      ↔ ((is_some (payment_tx d) ≡ false) × (is_expired ≡ false) × (is_some d.lockup_tx_id ≡ false))

-- A receive swap is derived to be complete, failed, pending or unknown exactly on the evidence
-- that `Outcomes` names for each.
pub receive_derive_outcomes :
    (d : RecoveredOnchainDataReceive) (is_expired : Bool) → Outcomes d is_expired
unfolding derive_partial_state
receive_derive_outcomes d is_expired = ground arith
