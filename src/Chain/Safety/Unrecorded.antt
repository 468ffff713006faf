-- ===== src/Chain/Safety/Unrecorded.antt =====
-- A lockup of the server that was refused is not recorded, with the exception that the source makes:
-- an incoming swap whose lockup was announced as confirmed.
use breez_sdk_liquid.Base.{
  ℕ, String, Bool, true, false, Option, some, none, List, [], ◌∷◌, ◌≡◌, refl, inl, inr, map,
  or_else, Bool-cases,
}
use breez_sdk_liquid.Base.Result.{is_ok}
use breez_sdk_liquid.Base.Exec.{◌>>=◌}
use breez_sdk_liquid.Base.Exec.Keeps.{Keeps, keeps_rules, Keeps-change, Keeps-bind, Keeps-refused}
use breez_sdk_liquid.Model.{ChainSwap, Direction, incoming, outgoing}
use breez_sdk_liquid.Persist.{Table, update_where, fetch_by_id}
use breez_sdk_liquid.Chain.Store.{
  Db, Action, ChainSwapUpdate, schema, touch, id_is, set_update, try_handle_chain_swap_update,
  update_actual_payer_amount,
}
use breez_sdk_liquid.Chain.Handler.{Services, fetch_chain_swap_by_id, notify, update_swap_info}
use breez_sdk_liquid.Chain.Handler.Check.{TransactionInfo, verify_server_lockup_tx}
use breez_sdk_liquid.Chain.Handler.Verify.{verify_user_lockup_tx}
use breez_sdk_liquid.Chain.Handler.Status.{
  ChainSwapStates, SwapStatus, on_server_mempool, on_server_confirmed, unless_claimed,
  on_incoming_state, on_outgoing_state, on_state, on_new_status,
}
use breez_sdk_liquid.Chain.Safety.User.{verify_user-Keeps}
use breez_sdk_liquid.Chain.Safety.Quiet.{map_err-is_ok}

abbrev lock_of : ChainSwap → String × Option String
lock_of s = (s.id, s.server_lockup_tx_id)

-- For each swap its id and the lockup of the server that it knows of.
abbrev pub locks_of : Db → List (String × Option String)
locks_of db = map lock_of db.swaps

update-locks :
    (table : Table) (test : ChainSwap → Bool) (set : ChainSwap → ChainSwap)
    → ((s : ChainSwap) → lock_of (touch table (set s)) ≡ lock_of s)
    → (rows : List ChainSwap)
    → map lock_of (update_where (schema table) test set rows) ≡ map lock_of rows
update-locks table test set same [] = refl
update-locks table test set same (s ∷ rows) = elim (Bool-cases (test s)) [
  | inl e ↦ rw (e, same s, update-locks table test set same rows) refl
  | inr e ↦ rw (e, update-locks table test set same rows) refl
]

or_else-none : (o : Option String) → or_else o none ≡ o
or_else-none none = refl
or_else-none (some x) = refl

-- The lockup fails the check: the one in the mempool that every swap makes, or the one of a confirmed
-- lockup that an outgoing swap makes.
pub data IsRefused (services : Services) (swap : ChainSwap) (t : TransactionInfo)
    : Direction → ChainSwapStates → Type 0 where
  in_mempool :
      (direction : Direction)
      → is_ok (verify_server_lockup_tx services swap t false) ≡ false
      → IsRefused services swap t direction ChainSwapStates.transaction_server_mempool
  when_confirmed :
      is_ok (verify_server_lockup_tx services swap t true) ≡ false
      → IsRefused services swap t outgoing ChainSwapStates.transaction_server_confirmed

module _ (services : Services) where
  fetch-locks : (id : String) → Keeps locks_of (fetch_chain_swap_by_id services id)
  unfolding fetch_chain_swap_by_id
  fetch-locks id = record { at = λ db. refl }

  notify-locks : (id : String) → Keeps locks_of (notify id)
  unfolding notify
  notify-locks id = Keeps-change _ (λ db. refl)

  handle-locks :
      (u : ChainSwapUpdate)
      → u.server_lockup_tx_id ≡ none
      → Keeps locks_of (try_handle_chain_swap_update services.table u)
  unfolding try_handle_chain_swap_update
  handle-locks u e = Keeps-change _ (λ db.
      update-locks services.table (id_is services.table u.swap_id) (set_update u)
        (λ s. rw (e, or_else-none s.server_lockup_tx_id) refl) db.swaps)

  info-locks :
      (u : ChainSwapUpdate)
      → u.server_lockup_tx_id ≡ none
      → Keeps locks_of (update_swap_info services u)
  unfolding update_swap_info
  info-locks u e = search (keeps_rules, fetch-locks, notify-locks, handle-locks) depth 20

  payer-locks :
      (id : String) (amount : ℕ)
      → Keeps locks_of (update_actual_payer_amount services.table id amount)
  unfolding update_actual_payer_amount
  payer-locks id amount = Keeps-change _ (λ db.
      update-locks services.table (id_is services.table id)
        (λ s. record s { actual_payer_amount_sat = some amount }) (λ s. refl) db.swaps)

  user-locks : (swap : ChainSwap) → Keeps locks_of (verify_user_lockup_tx services swap)
  user-locks = verify_user-Keeps services locks_of info-locks payer-locks

  unless_claimed-locks :
      (claim_tx_id : Option String) (t : TransactionInfo)
      (next : TransactionInfo → Action (Unit {0}))
      → Keeps locks_of (next t)
      → Keeps locks_of (unless_claimed services claim_tx_id (some t) next)
  unfolding unless_claimed
  unless_claimed-locks none t next h = h
  unless_claimed-locks (some claim_tx_id) t next h = search keeps_rules

  mempool-locks :
      (id : String) (swap : ChainSwap) (t : TransactionInfo)
      → is_ok (verify_server_lockup_tx services swap t false) ≡ false
      → Keeps locks_of (on_server_mempool services id swap t)
  unfolding on_server_mempool
  mempool-locks id swap t bad =
      Keeps-bind _ _ (user-locks swap) (λ u. Keeps-refused _ _ (map_err-is_ok services _ bad))

  confirmed-locks :
      (id : String) (swap : ChainSwap) (t : TransactionInfo)
      → is_ok (verify_server_lockup_tx services swap t true) ≡ false
      → Keeps locks_of (on_server_confirmed services id swap outgoing t)
  unfolding on_server_confirmed
  confirmed-locks id swap t bad =
      Keeps-bind _ _ (user-locks swap) (λ u. Keeps-refused _ _ (map_err-is_ok services _ bad))

  state-locks :
      (u : SwapStatus) (swap : ChainSwap) {direction : Direction} {state : ChainSwapStates}
      (t : TransactionInfo)
      → u.transaction ≡ some t
      → IsRefused services swap t direction state
      → Keeps locks_of (on_state services u swap direction (some state))
  unfolding on_state on_incoming_state on_outgoing_state
  state-locks u swap t e (in_mempool incoming bad) =
      rw e (unless_claimed-locks swap.claim_tx_id t _ (mempool-locks u.id swap t bad))
  state-locks u swap t e (in_mempool outgoing bad) =
      rw e (unless_claimed-locks swap.claim_tx_id t _ (mempool-locks u.id swap t bad))
  state-locks u swap t e (when_confirmed bad) =
      rw e (unless_claimed-locks swap.claim_tx_id t _ (confirmed-locks u.id swap t bad))

  -- Handling a status update about a lockup of the server that fails the check leaves the lockups of
  -- the server that are recorded as they are, if the lockup is in the mempool or the swap is outgoing.
  pub refused_lockup-unrecorded :
      (parse : String → Option ChainSwapStates) (u : SwapStatus) (swap : ChainSwap)
      {state : ChainSwapStates} (t : TransactionInfo) (db : Db)
      → fetch_by_id (schema services.table) u.id db.swaps ≡ some swap
      → parse u.status ≡ some state
      → u.transaction ≡ some t
      → IsRefused services swap t swap.direction state
      → locks_of (on_new_status services parse u db).1 ≡ locks_of db
  unfolding on_new_status fetch_chain_swap_by_id ◌>>=◌
  refused_lockup-unrecorded parse u swap t db found parsed e bad =
      rw (found, parsed, on_new_status, fetch_chain_swap_by_id, ◌>>=◌)
        ((state-locks u swap t e bad).at db)
