-- ===== src/Send/Safety/Refund.antt =====
-- The refund of a swap whose refund is already pending.
use breez_sdk_liquid.Base.{
  String, Bool, true, false, some, none, ◌≡◌, refl, ◌∙◌, inl, inr, arith, not, ◌&&◌, is_some,
  if◌then◌else◌,
}
use breez_sdk_liquid.Base.Result.{err, Result-cases}
use breez_sdk_liquid.Model.{SendSwap, PaymentState, state_eq, pending, refund_pending}
use breez_sdk_liquid.Model.Errors.{generic}
use breez_sdk_liquid.Send.Store.{Db, Action, done, ◌>>=◌, fetch_send_swap_by_id}
use breez_sdk_liquid.Send.Handler.{
  Services, fetch, update_swap_info, broadcast_tx, refund_address_of, refund, recorded,
  refund_by_state, refund_both_ways, has_expired, try_refund,
}
use breez_sdk_liquid.Send.Transition.{validate_state_transition}

module _ (services : Services) where
  -- A second move to `refund_pending` is rejected, and nothing is written.
  refund_pending-rejected :
      (swap : SendSwap) (tx_id : String) (db : Db)
      → fetch_send_swap_by_id services.table swap.id db.swaps ≡ some swap
      → swap.state ≡ refund_pending
      → update_swap_info services swap.id refund_pending none none (some tx_id) db
        ≡ (err generic, db)
  unfolding update_swap_info fetch ◌>>=◌ validate_state_transition
  refund_pending-rejected swap tx_id db found state =
      rw (found, state, update_swap_info, fetch, ◌>>=◌) refl

  refund-swaps :
      (swap : SendSwap) (is_cooperative : Bool) {address : String} (db : Db)
      → swap.refund_address ≡ some address
      → (refund services swap is_cooperative db).1.swaps ≡ db.swaps
  unfolding refund refund_address_of broadcast_tx ◌>>=◌
  refund-swaps swap is_cooperative db set = ground arith

  both_ways-swaps :
      (swap : SendSwap) {address : String} (db : Db)
      → swap.refund_address ≡ some address
      → (refund_both_ways services swap db).1.swaps ≡ db.swaps
  unfolding ◌>>=◌
  both_ways-swaps swap db set = elim (Result-cases (refund services swap true db).0) [
    | inl (failure, e) ↦
        rw (e, ◌>>=◌)
          (refund-swaps swap false (refund services swap true db).1 set
            ∙ refund-swaps swap true db set)
    | inr (tx_id, e) ↦ rw (e, ◌>>=◌) (refund-swaps swap true db set)
  ]

  recorded-swaps :
      (swap : SendSwap) (action : Action String) (db : Db)
      → (action db).1.swaps ≡ db.swaps
      → fetch_send_swap_by_id services.table swap.id db.swaps ≡ some swap
      → swap.state ≡ refund_pending
      → (recorded services swap action db).1.swaps ≡ db.swaps
  unfolding ◌>>=◌
  recorded-swaps swap action db same found state = elim (Result-cases (action db).0) [
    | inl (failure, e) ↦ rw (e, ◌>>=◌) same
    | inr (tx_id, e) ↦
        rw (e, ◌>>=◌)
          (rw (refund_pending-rejected swap tx_id (action db).1 (rw same found) state) same)
  ]

  by_state-swaps :
      (swap : SendSwap) (expired : Bool) (state : PaymentState) {address : String} (db : Db)
      → state ≡ refund_pending
      → fetch_send_swap_by_id services.table swap.id db.swaps ≡ some swap
      → swap.state ≡ refund_pending
      → swap.refund_address ≡ some address
      → (refund_by_state services swap expired state db).1.swaps ≡ db.swaps
  by_state-swaps swap true state db e found st set = rw e (
      recorded-swaps swap (refund_both_ways services swap) db (both_ways-swaps swap db set) found
        st)
  by_state-swaps swap false state db e found st set =
      rw e (
        recorded-swaps swap (refund services swap true) db (refund-swaps swap true db set) found st)

  if-swaps :
      (test : Bool) (action : Action (Unit {0})) (db : Db)
      → (action db).1.swaps ≡ db.swaps
      → ((if test then done tt else action) db).1.swaps ≡ db.swaps
  if-swaps true action db h = refl
  if-swaps false action db h = h

  -- A refund of a swap that waits for its refund with a refund address is never recorded: whatever
  -- was broadcast, the table stays as it is, so that the swap is still without a refund transaction.
  pub try_refund-unrecorded :
      (swap : SendSwap) {address : String} (db : Db)
      → fetch_send_swap_by_id services.table swap.id db.swaps ≡ some swap
      → swap.state ≡ refund_pending
      → swap.refund_address ≡ some address
      → (try_refund services swap db).1.swaps ≡ db.swaps
  unfolding try_refund
  try_refund-unrecorded swap db found state set = if-swaps (is_some swap.refund_tx_id) _ db (
      if-swaps (not (has_expired services swap) && state_eq swap.state pending) _ db
        (by_state-swaps swap (has_expired services swap) swap.state db state found state set))
