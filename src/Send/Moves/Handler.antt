-- ===== src/Send/Moves/Handler.antt =====
-- Each action of the send swap handler moves the rows of the table only as `Moves` allows.
use breez_sdk_liquid.Base.{
  some_unique, ℕ, String, Bool, true, false, Option, some, none, ◌≡◌, refl, if◌then◌else◌, inl, inr,
  arith, Option-cases, Bool-cases, is_some,
}
use breez_sdk_liquid.Base.Result.{Result, ok, err, Result-cases}
use breez_sdk_liquid.Model.{SendSwap, PaymentState, pending}
use breez_sdk_liquid.Model.Errors.{PaymentError}
use breez_sdk_liquid.Send.Store.{
  schema, Db, Table, Action, done, lift, attempt, ◌>>=◌, has_id, set_update, fetch_send_swap_by_id,
  try_handle_send_swap_update,
}
use breez_sdk_liquid.Persist.Rows.{
  Rows, Rows-refl, Rows-trans, update_where-Rows, IsValid, IsValid-Rows, Own, IsValid-Own,
}
use breez_sdk_liquid.Send.Handler.{
  Services, LiquidTx, SdkTransaction, CreateSubmarineResponse, fetch, update_swap_lnurl_info,
  notify_if_changed, update_swap_info, broadcast_tx, broadcast_refund, undo_lockup, finish_lockup,
  try_lockup, refund_address_of, refund, cooperate_claim,
}
use breez_sdk_liquid.Send.Moves.{
  Moves, Moves-refl, Moves-trans, Moves-same_id, set_update-Moves, aside-Moves, Sound,
  unchanged-Sound, bind-Sound, set_refund_address-Sound, set_lockup-Sound, unset_lockup-Sound,
}
use breez_sdk_liquid.Send.Transition.{validate_state_transition}
use breez_sdk_liquid.Send.Transition.Graph.{validate-⟶}

module _ (services : Services) where
  abbrev table : Table
  table = services.table

  pub attempt-Sound :
      {A : Type 0} (action : Action A) → Sound table action → Sound table (attempt action)
  attempt-Sound action h = record { rows = h.rows }

  pub lift-Sound : {A : Type 0} (result : Result PaymentError A) → Sound table (lift result)
  lift-Sound result = unchanged-Sound table (lift result) (λ db. refl)

  -- An action that a test may skip.
  pub if-Sound :
      (test : Bool) (action : Action (Unit {0}))
      → Sound table action
      → Sound table (if test then done tt else action)
  if-Sound true action h = lift-Sound (ok tt)
  if-Sound false action h = h

  lnurl-Sound :
      (swap updated_swap : SendSwap)
      → Sound table (update_swap_lnurl_info services swap updated_swap)
  unfolding update_swap_lnurl_info ◌>>=◌
  lnurl-Sound swap updated_swap =
      unchanged-Sound table (update_swap_lnurl_info services swap updated_swap) (λ db. ground arith)

  notify-Sound :
      (swap updated_swap : SendSwap) (updated : Bool)
      → Sound table (notify_if_changed services swap updated_swap updated)
  notify-Sound swap updated_swap updated =
      unchanged-Sound table (notify_if_changed services swap updated_swap updated)
        (λ db. ground arith)

  -- What follows the update of the row.
  abbrev recheck : String → SendSwap → Action (Unit {0})
  recheck id swap = do
    updated_swap ← fetch services id
    updated ← update_swap_lnurl_info services swap updated_swap
    notify_if_changed services swap updated_swap updated

  recheck-Sound : (id : String) (swap : SendSwap) → Sound table (recheck id swap)
  unfolding fetch
  recheck-Sound id swap =
      bind-Sound table (fetch services id) _
        (unchanged-Sound table (fetch services id) (λ db. refl))
        (λ updated_swap.
          bind-Sound table (update_swap_lnurl_info services swap updated_swap) _
            (lnurl-Sound swap updated_swap) (notify-Sound swap updated_swap))

  -- The row with the id is the one that was fetched, so that its move is the one that was checked.
  handle_update-Rows :
      (id : String) (to : PaymentState) (preimage lockup_tx refund_tx : Option String) (db : Db)
      (swap : SendSwap)
      → IsValid (schema table) db.swaps
      → fetch_send_swap_by_id table id db.swaps ≡ some swap
      → validate_state_transition swap.state to ≡ ok tt
      → Rows Moves db.swaps
          (try_handle_send_swap_update table id to preimage lockup_tx refund_tx db).1.swaps
  unfolding try_handle_send_swap_update
  handle_update-Rows id to preimage lockup_tx refund_tx db swap v found good =
      update_where-Rows (schema table) Moves {P = Own (schema table) id db.swaps} (has_id id)
        (set_update to preimage lockup_tx refund_tx) Moves-refl
        (λ s own e.
          let same : s ≡ swap = some_unique (own e) found in
          Moves-trans s _ _
            (set_update-Moves preimage lockup_tx refund_tx s (validate-⟶ s.state to (rw same good)))
            (aside-Moves _ _ refl refl refl refl))
        db.swaps (IsValid-Own (schema table) id db.swaps v)

  pub update_swap_info-Sound :
      (id : String) (to : PaymentState) (preimage lockup_tx refund_tx : Option String)
      → Sound table (update_swap_info services id to preimage lockup_tx refund_tx)
  unfolding update_swap_info fetch ◌>>=◌ try_handle_send_swap_update
  update_swap_info-Sound id to preimage lockup_tx refund_tx = record {
    rows = λ db v. elim (Option-cases (fetch_send_swap_by_id table id db.swaps)) [
      | inl missing ↦ rw (missing, update_swap_info, fetch, ◌>>=◌) (Rows-refl Moves-refl db.swaps)
      | inr (swap, found) ↦ elim (Result-cases (validate_state_transition swap.state to)) [
        | inl (failure, bad) ↦
            rw (found, bad, update_swap_info, fetch, ◌>>=◌) (Rows-refl Moves-refl db.swaps)
        | inr (u, good) ↦
            let update = try_handle_send_swap_update table id to preimage lockup_tx refund_tx in
            let h = handle_update-Rows id to preimage lockup_tx refund_tx db swap v found good in
            rw (found, good, update_swap_info, fetch, ◌>>=◌)
              (Rows-trans Moves-trans h (
                (recheck-Sound id swap).rows (update db).1
                  (IsValid-Rows (schema table) Moves-same_id h v)))
      ]
    ];
  }

  broadcast-Sound : (tx : LiquidTx) → Sound table (broadcast_tx services tx)
  unfolding broadcast_tx
  broadcast-Sound tx = unchanged-Sound table (broadcast_tx services tx) (λ db. ground arith)

  pub refund_address-Sound : (swap : SendSwap) → Sound table (refund_address_of services swap)
  unfolding refund_address_of
  refund_address-Sound swap = elim (Option-cases (swap.refund_address)) [
    | inl unset ↦
        rw (unset, refund_address_of)
          (bind-Sound table _ _ (lift-Sound _) (λ address.
            bind-Sound table _ _ (set_refund_address-Sound table swap.id address)
              (λ u. lift-Sound (ok address))))
    | inr (address, set) ↦ rw (set, refund_address_of) (lift-Sound (ok address))
  ]

  broadcast_refund-Sound : (tx : SdkTransaction) → Sound table (broadcast_refund services tx)
  broadcast_refund-Sound (SdkTransaction.liquid tx) = broadcast-Sound tx
  broadcast_refund-Sound (SdkTransaction.bitcoin tx) = lift-Sound _

  pub refund-Sound :
      (swap : SendSwap) (is_cooperative : Bool) → Sound table (refund services swap is_cooperative)
  unfolding refund
  refund-Sound swap is_cooperative = bind-Sound table _ _ (lift-Sound _) (λ swap_script.
      bind-Sound table _ _ (refund_address-Sound swap) (λ address.
        bind-Sound table _ _ (lift-Sound _) (λ script_pk.
          bind-Sound table _ _ (lift-Sound _) (λ utxos.
            bind-Sound table _ _ (lift-Sound _) (λ refund_tx. broadcast_refund-Sound refund_tx)))))

  pub cooperate_claim-Sound :
      (swap : SendSwap) (response : String) → Sound table (cooperate_claim services swap response)
  unfolding cooperate_claim
  cooperate_claim-Sound swap response =
      bind-Sound table _ _ (refund_address-Sound swap) (λ address. lift-Sound _)

  undo_lockup-Sound : (id tx_id : String) → Sound table (undo_lockup services id tx_id)
  undo_lockup-Sound id tx_id =
      bind-Sound table _ _ (unset_lockup-Sound table id tx_id) (λ u. lift-Sound _)

  finish_lockup-Sound :
      (id : String) (tx : LiquidTx) (amount : ℕ) → Sound table (finish_lockup services id tx amount)
  finish_lockup-Sound id tx amount =
      bind-Sound table _ _ (unchanged-Sound table _ (λ db. refl)) (λ u.
        bind-Sound table _ _ (update_swap_info-Sound id pending none (some tx.txid) none)
          (λ u. lift-Sound (ok tx)))

  after_broadcast-Sound :
      (id : String) (tx : LiquidTx) (amount : ℕ) (result : Result PaymentError String)
      → Sound table (elim result [
        | err failure ↦ undo_lockup services id tx.txid
        | ok tx_id ↦ finish_lockup services id tx amount
      ])
  after_broadcast-Sound id tx amount (err failure) = undo_lockup-Sound id tx.txid
  after_broadcast-Sound id tx amount (ok tx_id) = finish_lockup-Sound id tx amount

  pub try_lockup-Sound :
      (swap : SendSwap) (response : CreateSubmarineResponse)
      → Sound table (try_lockup services swap response)
  unfolding try_lockup
  try_lockup-Sound swap response = elim (Bool-cases (is_some swap.lockup_tx_id)) [
    | inl locked ↦ rw (locked, try_lockup) (lift-Sound _)
    | inr free ↦
        rw (free, try_lockup)
          (bind-Sound table _ _ (lift-Sound _) (λ tx.
            bind-Sound table _ _ (set_lockup-Sound table swap.id tx.txid) (λ u.
              bind-Sound table _ _ (attempt-Sound _ (broadcast-Sound tx))
                (after_broadcast-Sound swap.id tx response.expected_amount))))
  ]
