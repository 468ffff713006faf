-- ===== src/Chain/Moves/Claim.antt =====
-- A claim moves the rows of the table only as `Moves` allows, and so does a round of claims.
use breez_sdk_liquid.Base.{String, Option, some, none, List, [], ◌∷◌, refl, inl, inr, Option-cases}
use breez_sdk_liquid.Base.Result.{Result, ok, err, Result-cases}
use breez_sdk_liquid.Model.{ChainSwap, Direction, incoming, outgoing}
use breez_sdk_liquid.Model.Errors.{PaymentError}
use breez_sdk_liquid.Persist.Sound as Any
use breez_sdk_liquid.Send.Handler.{SdkTransaction, LiquidTx, liquid, bitcoin}
use breez_sdk_liquid.Chain.Handler.{
  Services, claim_address_of, broadcast_claim, claimed, undo_claim, broadcast_by_swapper,
  after_broadcast, send_claim, claim_inner, begin_claim, end_claim, claim,
}
use breez_sdk_liquid.Chain.Handler.Blocks.{claim_confirmed_server_lockup, claim_all, claim_pending}
use breez_sdk_liquid.Chain.Moves.{motion}
use breez_sdk_liquid.Chain.Moves.Store.{rows_of, Sound}
use breez_sdk_liquid.Chain.Moves.Handler.{handler_rules}

module _ (services : Services) where
  claim_address-Sound :
      (swap : ChainSwap) (direction : Direction) (address : Option String)
      → Sound services.table (claim_address_of services swap direction address)
  unfolding claim_address_of
  claim_address-Sound swap incoming none = search handler_rules
  claim_address-Sound swap incoming (some address) = search handler_rules
  claim_address-Sound swap outgoing address = search handler_rules

  by_swapper-Sound : (tx : LiquidTx) → Sound services.table (broadcast_by_swapper services tx)
  unfolding broadcast_by_swapper
  by_swapper-Sound tx = elim (Result-cases (services.swapper_broadcast tx)) [
    | inl (failure, e) ↦ rw (e, broadcast_by_swapper) (search handler_rules)
    | inr (tx_id, e) ↦ rw (e, broadcast_by_swapper) (search handler_rules)
  ]

  broadcast_claim-Sound : (tx : SdkTransaction) → Sound services.table (broadcast_claim services tx)
  unfolding broadcast_claim
  broadcast_claim-Sound (bitcoin tx) = search handler_rules
  broadcast_claim-Sound (liquid tx) = elim (Result-cases (services.liquid_broadcast tx)) [
    | inr (tx_id, e) ↦ rw (e, broadcast_claim) (search handler_rules)
    | inl (text, e) ↦ rw (e, broadcast_claim) (search (handler_rules, by_swapper-Sound))
  ]

  claimed-Sound :
      (swap : ChainSwap) (tx_id : String) (direction : Direction)
      → Sound services.table (claimed services swap tx_id direction)
  unfolding claimed
  claimed-Sound swap tx_id incoming = search handler_rules
  claimed-Sound swap tx_id outgoing = elim (Option-cases (swap.user_lockup_tx_id)) [
    | inl e ↦ rw (e, claimed) (search handler_rules)
    | inr (lockup, e) ↦ rw (e, claimed) (search handler_rules)
  ]

  undo_claim-Sound :
      (id tx_id : String) (failure : PaymentError)
      → Sound services.table (undo_claim services id tx_id failure)
  unfolding undo_claim
  undo_claim-Sound id tx_id failure = search handler_rules

  after_broadcast-Sound :
      (id : String) (swap : ChainSwap) (tx : SdkTransaction) (result : Result PaymentError String)
      → Sound services.table (after_broadcast services id swap tx result)
  unfolding after_broadcast
  after_broadcast-Sound id swap tx (ok tx_id) = claimed-Sound swap tx_id swap.direction
  after_broadcast-Sound id swap tx (err failure) = undo_claim-Sound id _ failure

  send_claim-Sound :
      (id : String) (swap : ChainSwap) (tx : SdkTransaction)
      → Sound services.table (send_claim services id swap tx)
  unfolding send_claim
  send_claim-Sound id swap tx = search (handler_rules, broadcast_claim-Sound, after_broadcast-Sound)

  claim_inner-Sound : (id : String) → Sound services.table (claim_inner services id)
  unfolding claim_inner
  claim_inner-Sound id = search (handler_rules, claim_address-Sound, send_claim-Sound) depth 20

  begin-Sound : (id : String) → Sound services.table (begin_claim services id)
  unfolding begin_claim
  begin-Sound id = Any.change-Sound rows_of _ (motion services.table) _ (λ db. refl)

  end-Sound : (id : String) → Sound services.table (end_claim services id)
  unfolding end_claim
  end-Sound id = Any.change-Sound rows_of _ (motion services.table) _ (λ db. refl)

  pub claim-Sound : (id : String) → Sound services.table (claim services id)
  unfolding claim
  claim-Sound id = search (handler_rules, begin-Sound, end-Sound, claim_inner-Sound) depth 20

  confirmed-Sound :
      (swap : ChainSwap) (tx_id : Option String)
      → Sound services.table (claim_confirmed_server_lockup services swap tx_id)
  unfolding claim_confirmed_server_lockup
  confirmed-Sound swap none = search handler_rules
  confirmed-Sound swap (some tx_id) = search (handler_rules, claim-Sound)

  claim_all-Sound : (swaps : List ChainSwap) → Sound services.table (claim_all services swaps)
  unfolding claim_all
  claim_all-Sound [] = search handler_rules
  claim_all-Sound (swap ∷ swaps) =
      Any.bind-Sound rows_of _ (motion services.table) _ _ (search (handler_rules, confirmed-Sound))
        (λ result. claim_all-Sound swaps)

  pub claim_pending-Sound :
      (direction : Direction) → Sound services.table (claim_pending services direction)
  unfolding claim_pending
  claim_pending-Sound direction = search (handler_rules, claim_all-Sound)
