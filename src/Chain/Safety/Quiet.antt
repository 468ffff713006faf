-- ===== src/Chain/Safety/Quiet.antt =====
-- A status update about a lockup of the server that fails its check, or that is not confirmed where it
-- has to be, is handled without a broadcast. A lockup of an incoming swap that was announced as
-- confirmed is recorded all the same, and `claim_confirmed_server_lockup` of Handler/Blocks does not
-- repeat the check: what a later block does with it is not spoken of here.
use breez_sdk_liquid.Base.{ℕ, String, true, false, Option, some, none, List, ◌≡◌, refl}
use breez_sdk_liquid.Base.Result.{Result, ok, err, map_err, is_ok}
use breez_sdk_liquid.Base.Exec.{◌>>=◌}
use breez_sdk_liquid.Base.Exec.Keeps.{
  Keeps, keeps_rules, Keeps-change, Keeps-bind, Keeps-refused, Keeps-skip,
}
use breez_sdk_liquid.Model.{ChainSwap, Direction, incoming, outgoing}
use breez_sdk_liquid.Model.Errors.{PaymentError, AnyError, generic}
use breez_sdk_liquid.Chain.Store.{
  Db, Action, ChainSwapUpdate, schema, try_handle_chain_swap_update, update_actual_payer_amount,
}
use breez_sdk_liquid.Chain.Handler.{Services, fetch_chain_swap_by_id, notify, update_swap_info}
use breez_sdk_liquid.Chain.Handler.Check.{TransactionInfo, verify_server_lockup_tx}
use breez_sdk_liquid.Chain.Handler.Verify.{verify_user_lockup_tx}
use breez_sdk_liquid.Chain.Handler.Status.{
  ChainSwapStates, SwapStatus, on_server_mempool, on_server_confirmed, unless_claimed,
  on_incoming_state, on_outgoing_state, on_state, on_new_status,
}
use breez_sdk_liquid.Chain.Safety.User.{verify_user-Keeps}
use breez_sdk_liquid.Persist.{fetch_by_id}

abbrev pub broadcasts_of : Db → List String
broadcasts_of db = db.broadcasts

-- An action that broadcasts nothing.
abbrev pub Quiet : {A : Type 0} → Action A → Type 0
Quiet action = Keeps broadcasts_of action

-- The server's lockup fails the check, or it is unconfirmed and the swap wants it confirmed.
pub data IsUnsafe (services : Services) (swap : ChainSwap) (t : TransactionInfo)
    : ChainSwapStates → Type 0 where
  refused_unconfirmed :
      is_ok (verify_server_lockup_tx services swap t false) ≡ false
      → IsUnsafe services swap t ChainSwapStates.transaction_server_mempool
  unconfirmed :
      swap.accept_zero_conf ≡ false
      → IsUnsafe services swap t ChainSwapStates.transaction_server_mempool
  refused_confirmed :
      is_ok (verify_server_lockup_tx services swap t true) ≡ false
      → IsUnsafe services swap t ChainSwapStates.transaction_server_confirmed

module _ (services : Services) where
  pub fetch-Quiet : (id : String) → Quiet (fetch_chain_swap_by_id services id)
  unfolding fetch_chain_swap_by_id
  fetch-Quiet id = record { at = λ db. refl }

  pub notify-Quiet : (id : String) → Quiet (notify id)
  unfolding notify
  notify-Quiet id = Keeps-change _ (λ db. refl)

  pub update-Quiet : (u : ChainSwapUpdate) → Quiet (try_handle_chain_swap_update services.table u)
  unfolding try_handle_chain_swap_update
  update-Quiet u = Keeps-change _ (λ db. refl)

  actual_payer-Quiet :
      (id : String) (amount : ℕ) → Quiet (update_actual_payer_amount services.table id amount)
  unfolding update_actual_payer_amount
  actual_payer-Quiet id amount = Keeps-change _ (λ db. refl)

  pub update_swap_info-Quiet : (u : ChainSwapUpdate) → Quiet (update_swap_info services u)
  unfolding update_swap_info
  update_swap_info-Quiet u = search (keeps_rules, fetch-Quiet, notify-Quiet, update-Quiet) depth 20

  ruleset quiet_rules = (keeps_rules, update_swap_info-Quiet, actual_payer-Quiet)

  verify_user-Quiet : (swap : ChainSwap) → Quiet (verify_user_lockup_tx services swap)
  verify_user-Quiet =
      verify_user-Keeps services broadcasts_of (λ u e. update_swap_info-Quiet u) actual_payer-Quiet

  ruleset verified_rules = (quiet_rules, verify_user-Quiet)

  pub map_err-is_ok :
      {A : Type 0} (result : Result AnyError A)
      → is_ok result ≡ false
      → is_ok (map_err {F = PaymentError} (λ failure. generic) result) ≡ false
  map_err-is_ok (ok value) h = cc
  map_err-is_ok (err failure) h = refl

  mempool_refused-Quiet :
      (id : String) (swap : ChainSwap) (t : TransactionInfo)
      → is_ok (verify_server_lockup_tx services swap t false) ≡ false
      → Quiet (on_server_mempool services id swap t)
  unfolding on_server_mempool
  mempool_refused-Quiet id swap t bad =
      Keeps-bind _ _ (verify_user-Quiet swap) (λ u. Keeps-refused _ _ (map_err-is_ok _ bad))

  waiting-Quiet :
      (id : String) (swap : ChainSwap) (t : TransactionInfo)
      → swap.accept_zero_conf ≡ false
      → Quiet (on_server_mempool services id swap t)
  unfolding on_server_mempool
  waiting-Quiet id swap t patient = search (verified_rules, Keeps-skip) depth 20

  confirmed-Quiet :
      (id : String) (swap : ChainSwap) (direction : Direction) (t : TransactionInfo)
      → is_ok (verify_server_lockup_tx services swap t true) ≡ false
      → Quiet (on_server_confirmed services id swap direction t)
  unfolding on_server_confirmed
  confirmed-Quiet id swap outgoing t bad =
      Keeps-bind _ _ (verify_user-Quiet swap) (λ u. Keeps-refused _ _ (map_err-is_ok _ bad))
  confirmed-Quiet id swap incoming t bad = Keeps-bind _ _ (verify_user-Quiet swap) (λ u.
      Keeps-bind _ _ (update_swap_info-Quiet _) (λ w. Keeps-refused _ _ (map_err-is_ok _ bad)))

  unless_claimed-Quiet :
      (claim_tx_id : Option String) (t : TransactionInfo)
      (next : TransactionInfo → Action (Unit {0}))
      → Quiet (next t)
      → Quiet (unless_claimed services claim_tx_id (some t) next)
  unfolding unless_claimed
  unless_claimed-Quiet none t next h = h
  unless_claimed-Quiet (some claim_tx_id) t next h = search quiet_rules

  state-Quiet :
      (u : SwapStatus) (swap : ChainSwap) (direction : Direction) {state : ChainSwapStates}
      (t : TransactionInfo)
      → u.transaction ≡ some t
      → IsUnsafe services swap t state
      → Quiet (on_state services u swap direction (some state))
  unfolding on_state on_incoming_state on_outgoing_state
  state-Quiet u swap incoming t e (refused_unconfirmed bad) =
      rw e (unless_claimed-Quiet swap.claim_tx_id t _ (mempool_refused-Quiet u.id swap t bad))
  state-Quiet u swap incoming t e (unconfirmed bad) =
      rw e (unless_claimed-Quiet swap.claim_tx_id t _ (waiting-Quiet u.id swap t bad))
  state-Quiet u swap incoming t e (refused_confirmed bad) =
      rw e (unless_claimed-Quiet swap.claim_tx_id t _ (confirmed-Quiet u.id swap incoming t bad))
  state-Quiet u swap outgoing t e (refused_unconfirmed bad) =
      rw e (unless_claimed-Quiet swap.claim_tx_id t _ (mempool_refused-Quiet u.id swap t bad))
  state-Quiet u swap outgoing t e (unconfirmed bad) =
      rw e (unless_claimed-Quiet swap.claim_tx_id t _ (waiting-Quiet u.id swap t bad))
  state-Quiet u swap outgoing t e (refused_confirmed bad) =
      rw e (unless_claimed-Quiet swap.claim_tx_id t _ (confirmed-Quiet u.id swap outgoing t bad))

  -- Handling one status update broadcasts nothing, in either direction, if the update is about a
  -- lockup of the server that fails the check, or that is in the mempool only while the swap wants it
  -- confirmed.
  pub unsafe_lockup-unclaimed :
      (parse : String → Option ChainSwapStates) (u : SwapStatus) (swap : ChainSwap)
      {state : ChainSwapStates} (t : TransactionInfo) (db : Db)
      → fetch_by_id (schema services.table) u.id db.swaps ≡ some swap
      → parse u.status ≡ some state
      → u.transaction ≡ some t
      → IsUnsafe services swap t state
      → (on_new_status services parse u db).1.broadcasts ≡ db.broadcasts
  unfolding on_new_status fetch_chain_swap_by_id ◌>>=◌
  unsafe_lockup-unclaimed parse u swap t db found parsed e bad =
      rw (found, parsed, on_new_status, fetch_chain_swap_by_id, ◌>>=◌)
        ((state-Quiet u swap swap.direction t e bad).at db)
