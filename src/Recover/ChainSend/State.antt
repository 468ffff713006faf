-- ===== src/Recover/ChainSend/State.antt =====
-- Which state an outgoing chain swap is derived to be in.
use breez_sdk_liquid.Base.{Bool, true, false, Option, some, none, ◌≡◌, ◌↔◌, ◌⊎◌, arith, is_some}
use breez_sdk_liquid.Model.{History, confirmed, complete, failed}
use breez_sdk_liquid.Recover.ChainSend.{RecoveredOnchainDataChainSend, derive_partial_state}

abbrev is_confirmed : Option History → Bool
is_confirmed (some h) = confirmed h
is_confirmed none = false

module _ (d : RecoveredOnchainDataChainSend) (is_expired : Bool) where
  -- Each final outcome with the evidence that it rests on: `complete` needs the lockup, a confirmed
  -- claim, and that a refund, if there is one, is confirmed too; `failed` needs a confirmed refund
  -- and no claim, or that the swap expired before any lockup.
  pub record Outcomes : Type 0 where
    pub is_complete : (derive_partial_state d is_expired ≡ some complete) ↔ (
        (is_some d.lbtc_user_lockup_tx_id ≡ true)
        × (is_confirmed d.btc_claim_tx_id ≡ true)
        × ((is_some d.lbtc_refund_tx_id ≡ false) ⊎ (is_confirmed d.lbtc_refund_tx_id ≡ true)))
    pub is_failed : (derive_partial_state d is_expired ≡ some failed) ↔ (
        (is_some d.lbtc_user_lockup_tx_id ≡ false) × (is_expired ≡ true)
        ⊎ (is_some d.lbtc_user_lockup_tx_id ≡ true)
          × (is_some d.btc_claim_tx_id ≡ false)
          × (is_confirmed d.lbtc_refund_tx_id ≡ true))
    pub is_unknown :
        (derive_partial_state d is_expired ≡ none)
        ↔ ((is_some d.lbtc_user_lockup_tx_id ≡ false) × (is_expired ≡ false))

  -- An outgoing chain swap is derived to be complete, failed or unknown exactly on the evidence
  -- that `Outcomes` names for each.
  pub chain_send_derive_outcomes : Outcomes
  unfolding derive_partial_state
  chain_send_derive_outcomes = ground arith
