-- ===== src/Send/Moves/Status.antt =====
-- A status update of the swapper moves the rows of the table only as `Moves` allows.
use breez_sdk_liquid.Base.{String, true, Option, some, none, ◌≢◌, refl, inl, inr, Option-cases, not}
use breez_sdk_liquid.Base.Result.{Result, ok, err, Result-cases, to_option}
use breez_sdk_liquid.Model.{SendSwap, failed, refund_pending, complete}
use breez_sdk_liquid.Model.Errors.{PaymentError}
use breez_sdk_liquid.Send.Store.{schema, Db, done}
use breez_sdk_liquid.Persist.Rows.{Rows, IsValid}
use breez_sdk_liquid.Send.Handler.{Services, fetch}
use breez_sdk_liquid.Send.Handler.Status.{
  SubSwapStates, claimed_preimage, fetched_preimage, on_claim_pending, on_unrecoverable, on_state,
  on_new_status,
}
use breez_sdk_liquid.Send.Moves.{Moves, Sound, bind-Sound, unchanged-Sound}
use breez_sdk_liquid.Send.Moves.Handler.{
  attempt-Sound, lift-Sound, if-Sound, update_swap_info-Sound, refund-Sound, cooperate_claim-Sound,
}

module _ (services : Services) (parse : String → Option SubSwapStates) where
  kept-Sound :
      (preimage : String) (result : Result PaymentError (Unit {0}))
      → Sound services.table {A = Option String}
          (elim result [ ok _ ↦ done (some preimage) | err failure ↦ done none ])
  kept-Sound preimage (ok u) = lift-Sound services (ok (some preimage))
  kept-Sound preimage (err failure) = lift-Sound services (ok none)

  claimed-Sound : (swap : SendSwap) → Sound services.table (claimed_preimage services parse swap)
  unfolding claimed_preimage
  claimed-Sound swap = elim (Result-cases (services.get_send_claim_tx_details swap)) [
    | inl (failure, e) ↦ rw (e, claimed_preimage) (lift-Sound services (ok none))
    | inr (preimage, e) ↦
        rw (e, claimed_preimage)
          (bind-Sound services.table _ _
            (attempt-Sound services _ (cooperate_claim-Sound services swap preimage))
            (kept-Sound preimage))
  ]

  fetched-Sound : (swap : SendSwap) → Sound services.table (fetched_preimage services parse swap)
  unfolding fetched_preimage
  fetched-Sound swap = bind-Sound services.table _ _ (lift-Sound services _) (λ preimage.
      bind-Sound services.table _ _ (lift-Sound services _)
        (λ u. lift-Sound services (ok preimage)))

  known-Sound :
      (swap : SendSwap) (known : Option String)
      → Sound services.table (elim known [
        | some preimage ↦ done preimage
        | none ↦ fetched_preimage services parse swap
      ])
  known-Sound swap (some preimage) = lift-Sound services (ok preimage)
  known-Sound swap none = fetched-Sound swap

  claim_pending-Sound :
      (swap : SendSwap) → Sound services.table (on_claim_pending services parse swap)
  unfolding on_claim_pending
  claim_pending-Sound swap = if-Sound services (not swap.metadata.is_local) _ (
      bind-Sound services.table _ _ (claimed-Sound swap) (λ known.
        bind-Sound services.table _ _ (known-Sound swap known)
          (λ preimage. update_swap_info-Sound services swap.id complete (some preimage) none none)))

  unrecoverable-Sound :
      (id : String) (swap : SendSwap)
      → Sound services.table (on_unrecoverable services parse id swap)
  unfolding on_unrecoverable
  unrecoverable-Sound id swap = elim (Option-cases (swap.lockup_tx_id)) [
    | inl unlocked ↦
        rw (unlocked, on_unrecoverable) (update_swap_info-Sound services id failed none none none)
    | inr (lockup, locked) ↦ elim (Option-cases (swap.refund_tx_id)) [
      | inr (refund_tx, refunded) ↦
          rw (locked, refunded, on_unrecoverable) (lift-Sound services (ok tt))
      | inl fresh ↦
          rw (locked, fresh, on_unrecoverable)
            (bind-Sound services.table _ _
              (attempt-Sound services _ (refund-Sound services swap true))
              (λ result.
                update_swap_info-Sound services swap.id refund_pending none none
                  (to_option result)))
    ]
  ]

  on_state-Sound :
      (id : String) (swap : SendSwap) (state : SubSwapStates)
      → state ≢ SubSwapStates.transaction_claimed
      → Sound services.table (on_state services parse id swap state)
  unfolding on_state
  on_state-Sound id swap SubSwapStates.invoice_set h = lift-Sound services (ok tt)
  on_state-Sound id swap SubSwapStates.transaction_claim_pending h = claim_pending-Sound swap
  on_state-Sound id swap SubSwapStates.transaction_claimed h = absurd (h refl)
  on_state-Sound id swap SubSwapStates.transaction_lockup_failed h = unrecoverable-Sound id swap
  on_state-Sound id swap SubSwapStates.invoice_failed_to_pay h = unrecoverable-Sound id swap
  on_state-Sound id swap SubSwapStates.swap_expired h = unrecoverable-Sound id swap
  on_state-Sound id swap (SubSwapStates.unhandled status) h = lift-Sound services (ok tt)

  on_new_status-Sound :
      (id status : String)
      → parse status ≢ some SubSwapStates.transaction_claimed
      → Sound services.table (on_new_status services parse id status)
  unfolding on_new_status fetch
  on_new_status-Sound id status other = elim (Option-cases (parse status)) [
    | inl unknown ↦ rw (unknown, on_new_status) (lift-Sound services _)
    | inr (state, known) ↦
        rw (known, on_new_status)
          (bind-Sound services.table _ _
            (unchanged-Sound services.table (fetch services id) (λ db. refl))
            (λ swap. on_state-Sound id swap state (λ e. other (rw (← e) known))))
  ]

  -- A status update other than `transaction.claimed` moves each row along the life cycle only, and
  -- never overwrites a preimage or a refund transaction, whatever fails on the way, in a table
  -- whose ids are unique.
  pub on_new_status-Moves :
      (id status : String)
      → parse status ≢ some SubSwapStates.transaction_claimed
      → (db : Db) → IsValid (schema services.table) db.swaps
      → Rows Moves db.swaps (on_new_status services parse id status db).1.swaps
  on_new_status-Moves id status other db v = (on_new_status-Sound id status other).rows db v
