-- ===== src/Receive/Moves/Handler.antt =====
-- The handler's validated update of a swap moves the rows only as `Moves` allows.
use breez_sdk_liquid.Base.{
  some_unique, ℕ, String, not, Option, some, none, ◌≡◌, refl, inl, inr, Option-cases, is_some,
}
use breez_sdk_liquid.Base.Result.{ok, Result-cases}
use breez_sdk_liquid.Base.Exec.{change, when, ◌>>=◌, ◌>>◌}
use breez_sdk_liquid.Model.{ReceiveSwap, PaymentState}
use breez_sdk_liquid.Model.Equality.{receive_swap_eq}
use breez_sdk_liquid.Persist.{fetch_by_id}
use breez_sdk_liquid.Persist.Rows.{
  Rows, Rows-refl, Rows-trans, IsValid-Rows, update_where-Rows, IsValid, Own, IsValid-Own,
}
use breez_sdk_liquid.Persist.Sound as Any
use breez_sdk_liquid.Receive.Store.{
  Db, Action, schema, id_is, set_update, try_handle_receive_swap_update, delete_reserved_address,
}
use breez_sdk_liquid.Receive.Handler.{
  Services, fetch_receive_swap_by_id, notify, insert_payment, sent, update_swap_info,
}
use breez_sdk_liquid.Receive.Moves.{
  Moves, Moves-refl, Moves-trans, motion, set_update-Moves, rows_of, Sound, store_rules,
}
use breez_sdk_liquid.Receive.Transition.{validate_state_transition}
use breez_sdk_liquid.Receive.Transition.Graph.{validate-⟶}

module _ (services : Services) where
  pub fetch-Sound : (id : String) → Sound services.table (fetch_receive_swap_by_id services id)
  unfolding fetch_receive_swap_by_id
  fetch-Sound id = Any.unchanged-Sound rows_of _ (motion services.table) _ (λ db. refl)

  pub notify-Sound : (id : String) → Sound services.table (notify id)
  unfolding notify
  notify-Sound id = Any.change-Sound rows_of _ (motion services.table) _ (λ db. refl)

  pub insert_payment-Sound :
      (tx_id : String) (amount : ℕ) → Sound services.table (insert_payment tx_id amount)
  unfolding insert_payment
  insert_payment-Sound tx_id amount =
      Any.change-Sound rows_of _ (motion services.table) _ (λ db. refl)

  pub sent-Sound : (txid returned : String) → Sound services.table (sent txid returned)
  unfolding sent
  sent-Sound txid returned = Any.unchanged-Sound rows_of _ (motion services.table) _ (λ db. refl)

  module _ (id : String) (to : PaymentState) (claim lockup mrh : Option String) where
    -- The row with the id is the one that was fetched, so that its move is the one that was checked.
    written-Rows :
        (db : Db) (swap : ReceiveSwap)
        → IsValid (schema services.table) db.swaps
        → fetch_by_id (schema services.table) id db.swaps ≡ some swap
        → validate_state_transition swap.state to ≡ ok tt
        → Rows Moves db.swaps
            (try_handle_receive_swap_update services.table id to claim lockup mrh none db).1.swaps
    unfolding try_handle_receive_swap_update change
    written-Rows db swap v found good =
        update_where-Rows (schema services.table) Moves
          {P = Own (schema services.table) id db.swaps} (id_is services.table id)
          (set_update to claim lockup mrh none) Moves-refl
          (λ s own e.
            let same : s ≡ swap = some_unique (own e) found in
            set_update-Moves services.table to claim lockup mrh s
              (validate-⟶ s.state to (rw same good)))
          db.swaps (IsValid-Own (schema services.table) id db.swaps v)

    -- What follows the update of the row.
    abbrev recheck : ReceiveSwap → Action (Unit {0})
    recheck swap = do
      updated_swap ← fetch_receive_swap_by_id services id
      when (is_some mrh) (delete_reserved_address swap.mrh_address)
      when (not (receive_swap_eq updated_swap swap)) (notify updated_swap.id)

    recheck-Sound : (swap : ReceiveSwap) → Sound services.table (recheck swap)
    recheck-Sound swap = search (store_rules, fetch-Sound, notify-Sound) depth 20

    pub update_swap_info-Sound :
        Sound services.table (update_swap_info services id to claim lockup mrh none)
    unfolding update_swap_info fetch_receive_swap_by_id ◌>>=◌ try_handle_receive_swap_update
    update_swap_info-Sound = record {
      rows = λ db v.
          let same = motion services.table in
          elim (Option-cases (fetch_by_id (schema services.table) id db.swaps)) [
            | inl missing ↦
                rw (missing, update_swap_info, fetch_receive_swap_by_id, ◌>>=◌)
                  (Rows-refl Moves-refl db.swaps)
            | inr (swap, found) ↦ elim (Result-cases (validate_state_transition swap.state to)) [
              | inl (failure, bad) ↦
                  rw (found, bad, update_swap_info, fetch_receive_swap_by_id, ◌>>=◌)
                    (Rows-refl Moves-refl db.swaps)
              | inr (done, good) ↦
                  let h = written-Rows db swap v found good in
                  rw (found, good, update_swap_info, fetch_receive_swap_by_id, ◌>>=◌)
                    (Rows-trans Moves-trans h (
                      (recheck-Sound swap).rows
                        (try_handle_receive_swap_update services.table id to claim lockup mrh none
                          db).1
                        (IsValid-Rows (schema services.table) same.keeps_id h v)))
            ]
          ];
    }

pub ruleset handler_rules = (
  store_rules, fetch-Sound, notify-Sound, insert_payment-Sound, sent-Sound, update_swap_info-Sound,
)
