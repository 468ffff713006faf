-- ===== src/Send/Moves/Refunds.antt =====
-- The refunds of the send swap handler move the rows of the table only as `Moves` allows.
use breez_sdk_liquid.Base.{String, Bool, true, false, some, none, List, [], ◌∷◌, is_some, not, ◌&&◌}
use breez_sdk_liquid.Base.Result.{Result, ok, err}
use breez_sdk_liquid.Model.{SendSwap, PaymentState, state_eq, pending, refund_pending}
use breez_sdk_liquid.Model.Errors.{PaymentError}
use breez_sdk_liquid.Send.Store.{schema, Action, Db, done, list_pending_send_swaps}
use breez_sdk_liquid.Send.Handler.{
  Services, refund, record_refund, refund_both_ways, refund_by_state, recorded, has_expired,
  try_refund, try_refund_all, check_refunds,
}
use breez_sdk_liquid.Persist.Rows.{Rows, IsValid}
use breez_sdk_liquid.Send.Moves.{Moves, Sound, bind-Sound}
use breez_sdk_liquid.Send.Moves.Handler.{
  attempt-Sound, lift-Sound, if-Sound, update_swap_info-Sound, refund-Sound,
}

module _ (services : Services) where
  second_try-Sound :
      (swap : SendSwap) (result : Result PaymentError String)
      → Sound services.table
          (elim result [ ok tx_id ↦ done tx_id | err failure ↦ refund services swap false ])
  second_try-Sound swap (ok tx_id) = lift-Sound services (ok tx_id)
  second_try-Sound swap (err failure) = refund-Sound services swap false

  both_ways-Sound : (swap : SendSwap) → Sound services.table (refund_both_ways services swap)
  both_ways-Sound swap =
      bind-Sound services.table _ _ (attempt-Sound services _ (refund-Sound services swap true))
        (second_try-Sound swap)

  record-Sound :
      (swap : SendSwap) (result : Result PaymentError String)
      → Sound services.table (record_refund services swap result)
  record-Sound swap (err failure) = lift-Sound services (ok tt)
  record-Sound swap (ok tx_id) =
      bind-Sound services.table _ _
        (attempt-Sound services _
          (update_swap_info-Sound services swap.id refund_pending none none (some tx_id)))
        (λ result. lift-Sound services (ok tt))

  recorded-Sound :
      (swap : SendSwap) (action : Action String)
      → Sound services.table action
      → Sound services.table (recorded services swap action)
  recorded-Sound swap action h =
      bind-Sound services.table _ _ (attempt-Sound services action h) (record-Sound swap)

  by_state-Sound :
      (swap : SendSwap) (expired : Bool) (state : PaymentState)
      → Sound services.table (refund_by_state services swap expired state)
  by_state-Sound swap expired PaymentState.pending =
      recorded-Sound swap _ (refund-Sound services swap false)
  by_state-Sound swap true PaymentState.refund_pending =
      recorded-Sound swap _ (both_ways-Sound swap)
  by_state-Sound swap false PaymentState.refund_pending =
      recorded-Sound swap _ (refund-Sound services swap true)
  by_state-Sound swap expired PaymentState.created = lift-Sound services (ok tt)
  by_state-Sound swap expired PaymentState.complete = lift-Sound services (ok tt)
  by_state-Sound swap expired PaymentState.failed = lift-Sound services (ok tt)
  by_state-Sound swap expired PaymentState.timed_out = lift-Sound services (ok tt)
  by_state-Sound swap expired PaymentState.refundable = lift-Sound services (ok tt)
  by_state-Sound swap expired PaymentState.waiting_fee_acceptance = lift-Sound services (ok tt)

  try_refund-Sound : (swap : SendSwap) → Sound services.table (try_refund services swap)
  unfolding try_refund
  try_refund-Sound swap = if-Sound services (is_some swap.refund_tx_id) _ (
      if-Sound services (not (has_expired services swap) && state_eq swap.state pending) _
        (by_state-Sound swap (has_expired services swap) swap.state))

  pub try_refund_all-Sound :
      (swaps : List SendSwap) → Sound services.table (try_refund_all services swaps)
  unfolding try_refund_all
  try_refund_all-Sound [] = lift-Sound services (ok tt)
  try_refund_all-Sound (swap ∷ swaps) =
      bind-Sound services.table _ _ (try_refund-Sound swap) (λ u. try_refund_all-Sound swaps)

  -- The periodic check of refunds moves each row along the life cycle only, and never overwrites a
  -- preimage or a refund transaction, in a table whose ids are unique.
  pub check_refunds-Moves :
      (db : Db)
      → IsValid (schema services.table) db.swaps
      → Rows Moves db.swaps (check_refunds services db).1.swaps
  unfolding check_refunds
  check_refunds-Moves db v = (try_refund_all-Sound (list_pending_send_swaps db.swaps)).rows db v
