-- ===== src/Chain/Moves/Handler.antt =====
-- The handler's validated update of a swap and its broadcasts move the rows only as `Moves` allows.
use breez_sdk_liquid.Base.{some_unique, ℕ, String, not, some, ◌≡◌, refl, inl, inr, Option-cases}
use breez_sdk_liquid.Base.Result.{ok, Result-cases}
use breez_sdk_liquid.Base.Exec.{change, when, ◌>>=◌}
use breez_sdk_liquid.Model.{ChainSwap}
use breez_sdk_liquid.Model.Equality.{chain_swap_eq}
use breez_sdk_liquid.Persist.{fetch_by_id}
use breez_sdk_liquid.Persist.Rows.{
  Rows, Rows-refl, Rows-trans, IsValid-Rows, update_where-Rows, IsValid, Own, IsValid-Own,
}
use breez_sdk_liquid.Persist.Sound as Any
use breez_sdk_liquid.Send.Handler.{LiquidTx}
use breez_sdk_liquid.Chain.Store.{
  Db, Action, ChainSwapUpdate, schema, id_is, set_update, try_handle_chain_swap_update,
}
use breez_sdk_liquid.Chain.Handler.{
  Services, CreateChainResponse, fetch_chain_swap_by_id, notify, insert_payment, sent,
  update_swap_info, broadcast_liquid, broadcast_bitcoin, lockup_funds,
}
use breez_sdk_liquid.Chain.Moves.{Moves, Moves-refl, Moves-trans, motion, set_update-Moves}
use breez_sdk_liquid.Chain.Moves.Store.{rows_of, Sound, store_rules}
use breez_sdk_liquid.Chain.Transition.{validate_state_transition}
use breez_sdk_liquid.Chain.Transition.Graph.{validate-⟶}

module _ (services : Services) where
  pub fetch-Sound : (id : String) → Sound services.table (fetch_chain_swap_by_id services id)
  unfolding fetch_chain_swap_by_id
  fetch-Sound id = Any.unchanged-Sound rows_of _ (motion services.table) _ (λ db. refl)

  pub notify-Sound : (id : String) → Sound services.table (notify id)
  unfolding notify
  notify-Sound id = Any.change-Sound rows_of _ (motion services.table) _ (λ db. refl)

  pub insert_payment-Sound :
      (tx_id : String) (amount : ℕ) → Sound services.table (insert_payment tx_id amount)
  unfolding insert_payment
  insert_payment-Sound tx_id amount =
      Any.change-Sound rows_of _ (motion services.table) _ (λ db. refl)

  pub sent-Sound : (txid returned : String) → Sound services.table (sent txid returned)
  unfolding sent
  sent-Sound txid returned = Any.unchanged-Sound rows_of _ (motion services.table) _ (λ db. refl)

  -- The row with the id is the one that was fetched, so that its move is the one that was checked.
  written-Rows :
      (u : ChainSwapUpdate) (db : Db) (swap : ChainSwap)
      → IsValid (schema services.table) db.swaps
      → fetch_by_id (schema services.table) u.swap_id db.swaps ≡ some swap
      → validate_state_transition swap.state u.to_state ≡ ok tt
      → Rows Moves db.swaps (try_handle_chain_swap_update services.table u db).1.swaps
  unfolding try_handle_chain_swap_update change
  written-Rows u db swap v found good =
      update_where-Rows (schema services.table) Moves
        {P = Own (schema services.table) u.swap_id db.swaps} (id_is services.table u.swap_id)
        (set_update u) Moves-refl
        (λ s own e.
          let same : s ≡ swap = some_unique (own e) found in
          set_update-Moves services.table u s (validate-⟶ s.state u.to_state (rw same good)))
        db.swaps (IsValid-Own (schema services.table) u.swap_id db.swaps v)

  -- What follows the update of the row.
  abbrev recheck : ChainSwapUpdate → ChainSwap → Action (Unit {0})
  recheck u swap = do
    updated_swap ← fetch_chain_swap_by_id services u.swap_id
    when (not (chain_swap_eq updated_swap swap)) (notify updated_swap.id)

  recheck-Sound : (u : ChainSwapUpdate) (swap : ChainSwap) → Sound services.table (recheck u swap)
  recheck-Sound u swap = search (store_rules, fetch-Sound, notify-Sound)

  pub update_swap_info-Sound :
      (u : ChainSwapUpdate) → Sound services.table (update_swap_info services u)
  unfolding update_swap_info fetch_chain_swap_by_id ◌>>=◌ try_handle_chain_swap_update
  update_swap_info-Sound u = record {
    rows = λ db v.
        let same = motion services.table in
        elim (Option-cases (fetch_by_id (schema services.table) u.swap_id db.swaps)) [
          | inl missing ↦
              rw (missing, update_swap_info, fetch_chain_swap_by_id, ◌>>=◌)
                (Rows-refl Moves-refl db.swaps)
          | inr (swap, found) ↦
              elim (Result-cases (validate_state_transition swap.state u.to_state)) [
                | inl (failure, bad) ↦
                    rw (found, bad, update_swap_info, fetch_chain_swap_by_id, ◌>>=◌)
                      (Rows-refl Moves-refl db.swaps)
                | inr (done, good) ↦
                    let h = written-Rows u db swap v found good in
                    rw (found, good, update_swap_info, fetch_chain_swap_by_id, ◌>>=◌)
                      (Rows-trans Moves-trans h (
                        (recheck-Sound u swap).rows
                          (try_handle_chain_swap_update services.table u db).1
                          (IsValid-Rows (schema services.table) same.keeps_id h v)))
              ]
        ];
  }

  pub broadcast_liquid-Sound : (tx : LiquidTx) → Sound services.table (broadcast_liquid services tx)
  unfolding broadcast_liquid
  broadcast_liquid-Sound tx = elim (Result-cases (services.liquid_broadcast tx)) [
    | inl (text, e) ↦ rw (e, broadcast_liquid) (search store_rules)
    | inr (tx_id, e) ↦ rw (e, broadcast_liquid) (sent-Sound tx.txid tx_id)
  ]

  pub broadcast_bitcoin-Sound : (tx : String) → Sound services.table (broadcast_bitcoin services tx)
  unfolding broadcast_bitcoin
  broadcast_bitcoin-Sound tx = elim (Result-cases (services.bitcoin_broadcast tx)) [
    | inl (text, e) ↦ rw (e, broadcast_bitcoin) (search store_rules)
    | inr (tx_id, e) ↦ rw (e, broadcast_bitcoin) (sent-Sound tx tx_id)
  ]

  pub lockup_funds-Sound :
      (id : String) (response : CreateChainResponse)
      → Sound services.table (lockup_funds services id response)
  unfolding lockup_funds
  lockup_funds-Sound id response = search (store_rules, broadcast_liquid-Sound)

pub ruleset handler_rules = (
  store_rules, fetch-Sound, notify-Sound, insert_payment-Sound, sent-Sound, update_swap_info-Sound,
  broadcast_liquid-Sound, broadcast_bitcoin-Sound, lockup_funds-Sound,
)
