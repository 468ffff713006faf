-- ===== src/Recover/ChainReceive/State.antt =====
-- Which state an incoming chain swap is derived to be in.
use breez_sdk_liquid.Base.{
  ℕ, Bool, true, false, ◌||◌, Option, some, none, ◌≡◌, ◌↔◌, ◌⊎◌, arith, is_some,
}
use breez_sdk_liquid.Model.{History, PaymentState, confirmed, complete, failed, refundable}
use breez_sdk_liquid.Recover.ChainReceive.{
  RecoveredOnchainDataChainReceive, PairLimits, unexpected_amount, amount_out_of_bounds,
  expired_refundable, derive_partial_state,
}

abbrev is_confirmed : Option History → Bool
is_confirmed (some h) = confirmed h
is_confirmed none = false

abbrev absent_or_confirmed : Option History → Bool
absent_or_confirmed (some h) = confirmed h
absent_or_confirmed none = true

-- What the swap has paid out: a confirmed claim, and a refund only if it is confirmed, or a
-- confirmed refund with no claim.
abbrev Claimed : RecoveredOnchainDataChainReceive → Type 0
Claimed d =
    (is_some d.btc_user_lockup_tx_id ≡ true)
    × (is_confirmed d.lbtc_claim_tx_id ≡ true)
    × (absent_or_confirmed d.btc_refund_tx_id ≡ true)

abbrev Refunded : RecoveredOnchainDataChainReceive → Type 0
Refunded d =
    (is_some d.btc_user_lockup_tx_id ≡ true)
    × (is_some d.lbtc_claim_tx_id ≡ false)
    × (is_confirmed d.btc_refund_tx_id ≡ true)

abbrev LockedOnly : RecoveredOnchainDataChainReceive → Type 0
LockedOnly d =
    (is_some d.btc_user_lockup_tx_id ≡ true)
    × (is_some d.lbtc_claim_tx_id ≡ false)
    × (is_some d.btc_refund_tx_id ≡ false)

module _ (d : RecoveredOnchainDataChainReceive) (expected : Option ℕ) (limits : Option PairLimits)
    (is_expired is_waiting : Bool) where
  abbrev derived : Option PaymentState
  derived = derive_partial_state d expected limits is_expired is_waiting

  -- Each outcome with the evidence that it rests on. Funds that are left on the lockup address
  -- after the expiry keep a claimed or refunded swap from being `complete` or `failed`.
  pub record Outcomes : Type 0 where
    pub is_complete :
        (derived ≡ some complete) ↔ (Claimed d × (expired_refundable d is_expired ≡ false))
    pub is_failed : (derived ≡ some failed) ↔ (
        (is_some d.btc_user_lockup_tx_id ≡ false) × (is_expired ≡ true)
        ⊎ Refunded d × (expired_refundable d is_expired ≡ false))
    pub is_refundable : (derived ≡ some refundable) ↔ (
        (Claimed d × (expired_refundable d is_expired ≡ true))
        ⊎ (Refunded d × (expired_refundable d is_expired ≡ true))
        ⊎ (LockedOnly d
            × ((expired_refundable d is_expired
                  || (unexpected_amount d expected || amount_out_of_bounds d limits))
                ≡ true)))
    pub is_unknown :
        (derived ≡ none) ↔ ((is_some d.btc_user_lockup_tx_id ≡ false) × (is_expired ≡ false))

  -- An incoming chain swap is derived to be complete, failed, refundable or unknown exactly on the
  -- evidence that `Outcomes` names for each.
  pub chain_receive_derive_outcomes : Outcomes
  unfolding derive_partial_state
  chain_receive_derive_outcomes = ground arith
