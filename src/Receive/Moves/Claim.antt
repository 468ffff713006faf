-- ===== src/Receive/Moves/Claim.antt =====
-- A claim moves the rows of receive swaps only as `Moves` allows.
use breez_sdk_liquid.Base.{String, Option, some, none, refl, inl, inr}
use breez_sdk_liquid.Base.Result.{Result, ok, err, Result-cases}
use breez_sdk_liquid.Model.{ReceiveSwap}
use breez_sdk_liquid.Model.Errors.{PaymentError}
use breez_sdk_liquid.Persist.Sound as Any
use breez_sdk_liquid.Send.Handler.{LiquidTx}
use breez_sdk_liquid.Receive.Handler.{
  Services, claim_address_of, broadcast_by_swapper, broadcast_claim, after_broadcast, send_claim,
  make_claim, claim_inner, begin_claim, end_claim, claim,
}
use breez_sdk_liquid.Receive.Moves.{motion, rows_of, Sound}
use breez_sdk_liquid.Receive.Moves.Handler.{handler_rules}

module _ (services : Services) where
  address-Sound :
      (id : String) (address : Option String)
      → Sound services.table (claim_address_of services id address)
  unfolding claim_address_of
  address-Sound id none = search handler_rules
  address-Sound id (some address) = search handler_rules

  by_swapper-Sound : (tx : LiquidTx) → Sound services.table (broadcast_by_swapper services tx)
  unfolding broadcast_by_swapper
  by_swapper-Sound tx = elim (Result-cases (services.swapper_broadcast tx)) [
    | inl (failure, e) ↦ rw (e, broadcast_by_swapper) (search handler_rules)
    | inr (tx_id, e) ↦ rw (e, broadcast_by_swapper) (search handler_rules)
  ]

  broadcast_claim-Sound : (tx : LiquidTx) → Sound services.table (broadcast_claim services tx)
  unfolding broadcast_claim
  broadcast_claim-Sound tx = elim (Result-cases (services.liquid_broadcast tx)) [
    | inr (tx_id, e) ↦ rw (e, broadcast_claim) (search handler_rules)
    | inl (text, e) ↦ rw (e, broadcast_claim) (search (handler_rules, by_swapper-Sound))
  ]

  after_broadcast-Sound :
      (id : String) (swap : ReceiveSwap) (tx : LiquidTx) (result : Result PaymentError String)
      → Sound services.table (after_broadcast services id swap tx result)
  unfolding after_broadcast
  after_broadcast-Sound id swap tx (ok tx_id) = search handler_rules
  after_broadcast-Sound id swap tx (err failure) = search handler_rules

  send_claim-Sound :
      (id : String) (swap : ReceiveSwap) (tx : LiquidTx)
      → Sound services.table (send_claim services id swap tx)
  unfolding send_claim
  send_claim-Sound id swap tx = search (handler_rules, broadcast_claim-Sound, after_broadcast-Sound)

  make_claim-Sound :
      (id : String) (swap : ReceiveSwap) (address : String)
      → Sound services.table (make_claim services id swap address)
  unfolding make_claim
  make_claim-Sound id swap address = search (handler_rules, send_claim-Sound) depth 20

  claim_inner-Sound : (id : String) → Sound services.table (claim_inner services id)
  unfolding claim_inner
  claim_inner-Sound id = search (handler_rules, address-Sound, make_claim-Sound) depth 20

  begin-Sound : (id : String) → Sound services.table (begin_claim services id)
  unfolding begin_claim
  begin-Sound id = Any.change-Sound rows_of _ (motion services.table) _ (λ db. refl)

  end-Sound : (id : String) → Sound services.table (end_claim services id)
  unfolding end_claim
  end-Sound id = Any.change-Sound rows_of _ (motion services.table) _ (λ db. refl)

  pub claim-Sound : (id : String) → Sound services.table (claim services id)
  unfolding claim
  claim-Sound id = search (handler_rules, begin-Sound, end-Sound, claim_inner-Sound) depth 20
