-- ===== src/Chain/Moves/Refund.antt =====
-- Refunds move the rows of the table only as `Moves` allows.
use breez_sdk_liquid.Base.{ℕ, String, Bool, Option, some, none, List, [], ◌∷◌}
use breez_sdk_liquid.Base.Result.{Result, ok, err}
use breez_sdk_liquid.Model.{ChainSwap, PaymentState, pending, refund_pending}
use breez_sdk_liquid.Model.Errors.{PaymentError}
use breez_sdk_liquid.Send.Handler.{SdkTransaction, liquid, bitcoin}
use breez_sdk_liquid.Chain.Store.{Action}
use breez_sdk_liquid.Chain.Handler.{Services}
use breez_sdk_liquid.Chain.Handler.Refund.{
  broadcast_bitcoin_refund, broadcast_liquid_refund, refund_incoming_swap, refund_address_of,
  refund_outgoing_swap, or_alone, refund_both_ways, record_result, recorded, refund_by_state,
  check_refund, check_refunds, refund_outgoing,
}
use breez_sdk_liquid.Persist.Sound as Any
use breez_sdk_liquid.Chain.Moves.{motion}
use breez_sdk_liquid.Chain.Moves.Store.{rows_of, Sound}
use breez_sdk_liquid.Chain.Moves.Handler.{handler_rules}

module _ (services : Services) where
  bitcoin_refund-Sound :
      (tx : SdkTransaction) → Sound services.table (broadcast_bitcoin_refund services tx)
  unfolding broadcast_bitcoin_refund
  bitcoin_refund-Sound (bitcoin tx) = search handler_rules
  bitcoin_refund-Sound (liquid tx) = search handler_rules

  liquid_refund-Sound :
      (tx : SdkTransaction) → Sound services.table (broadcast_liquid_refund services tx)
  unfolding broadcast_liquid_refund
  liquid_refund-Sound (bitcoin tx) = search handler_rules
  liquid_refund-Sound (liquid tx) = search handler_rules

  pub refund_incoming-Sound :
      (lockup_address refund_address : String) (fee_rate : ℕ) (cooperative : Bool)
      → Sound services.table
          (refund_incoming_swap services lockup_address refund_address fee_rate cooperative)
  unfolding refund_incoming_swap
  refund_incoming-Sound lockup_address refund_address fee_rate cooperative =
      search (handler_rules, bitcoin_refund-Sound) depth 20

  address-Sound :
      (id : String) (address : Option String)
      → Sound services.table (refund_address_of services id address)
  unfolding refund_address_of
  address-Sound id (some address) = search handler_rules
  address-Sound id none = search handler_rules

  pub refund_outgoing_swap-Sound :
      (swap : ChainSwap) (cooperative : Bool)
      → Sound services.table (refund_outgoing_swap services swap cooperative)
  unfolding refund_outgoing_swap
  refund_outgoing_swap-Sound swap cooperative =
      search (handler_rules, address-Sound, liquid_refund-Sound) depth 20

  or_alone-Sound :
      (swap : ChainSwap) (result : Result PaymentError String)
      → Sound services.table (or_alone services swap result)
  unfolding or_alone
  or_alone-Sound swap (ok tx_id) = search handler_rules
  or_alone-Sound swap (err failure) = refund_outgoing_swap-Sound swap _

  both_ways-Sound : (swap : ChainSwap) → Sound services.table (refund_both_ways services swap)
  unfolding refund_both_ways
  both_ways-Sound swap = search (handler_rules, refund_outgoing_swap-Sound, or_alone-Sound)

  result-Sound :
      (id : String) (result : Result PaymentError String)
      → Sound services.table (record_result services id result)
  unfolding record_result
  result-Sound id (ok tx_id) = search handler_rules
  result-Sound id (err failure) = search handler_rules

  recorded-Sound :
      (id : String) (action : Action String)
      → Sound services.table action
      → Sound services.table (recorded services id action)
  unfolding recorded
  recorded-Sound id action h = search (handler_rules, result-Sound)

  ruleset refund_rules =
      (handler_rules, recorded-Sound, refund_outgoing_swap-Sound, both_ways-Sound)

  by_state-Sound :
      (swap : ChainSwap) (expired : Bool) (state : PaymentState)
      → Sound services.table (refund_by_state services swap expired state)
  unfolding refund_by_state
  by_state-Sound swap expired pending = search refund_rules
  by_state-Sound swap expired refund_pending = search refund_rules
  by_state-Sound swap expired _ = search handler_rules

  check_refund-Sound :
      (height : ℕ) (swap : ChainSwap) → Sound services.table (check_refund services height swap)
  unfolding check_refund
  check_refund-Sound height swap = search (handler_rules, by_state-Sound)

  check_refunds-Sound :
      (height : ℕ) (swaps : List ChainSwap)
      → Sound services.table (check_refunds services height swaps)
  unfolding check_refunds
  check_refunds-Sound height [] = search handler_rules
  check_refunds-Sound height (swap ∷ swaps) =
      Any.bind-Sound rows_of _ (motion services.table) _ _ (check_refund-Sound height swap)
        (λ u. check_refunds-Sound height swaps)

  pub refund_outgoing-Sound : (height : ℕ) → Sound services.table (refund_outgoing services height)
  unfolding refund_outgoing
  refund_outgoing-Sound height = search (handler_rules, check_refunds-Sound)
