-- ===== src/Chain/Store.antt =====
-- lib/core/src/persist/chain.rs: the table of chain swaps, with what else the chain swap handler
-- writes.
pub mod Insert
use breez_sdk_liquid.Base.{
  ℕ, String, Bool, true, ◌&&◌, Option, some, none, List, [], ◌∷◌, ◌≡◌, refl, if◌then◌else◌, ◌==◌,
  ◌||◌, is_none, or_else, filter, find, length,
}
use breez_sdk_liquid.Base.Text.{str_eq}
use breez_sdk_liquid.Persist.{touch_metadata, chain_record}
use breez_sdk_liquid.Persist.Outgoing.{Fields, SyncOutgoingChanges, commit_change}
use breez_sdk_liquid.Base.Result.{ok, err}
use breez_sdk_liquid.Base.Exec.{Exec, change}
use breez_sdk_liquid.Model.{
  PaymentState, state_eq, pending, refund_pending, waiting_fee_acceptance, ChainSwap,
}
use breez_sdk_liquid.Model.Errors.{PaymentError, already_claimed}
use breez_sdk_liquid.Persist.{Table, Schema, has_id, update_where}

pub record Db : Type 0 where
  -- the rows of `chain_swaps`, ordered by `created_at`
  pub swaps : List ChainSwap
  -- the transaction ids and amounts of the payments that were inserted, the latest first
  pub payments : List (String × ℕ)
  -- the rows of `sync_outgoing`
  pub sync_outgoing : List SyncOutgoingChanges
  -- the ids sent to the subscribers, the latest first
  pub notified : List String
  -- the ids of the transactions broadcast, the latest first
  pub broadcasts : List String
  -- the swap ids and amounts of the quotes that the swapper was asked to accept and accepted
  pub accepted_quotes : List (String × ℕ)
  -- `ChainSwapHandler::claiming_swaps`
  pub claiming_swaps : List String

abbrev pub Action : Type 0 → Type 0
Action A = Exec PaymentError Db A

pub record ChainSwapUpdate : Type 0 where
  pub swap_id : String
  pub to_state : PaymentState
  pub server_lockup_tx_id : Option String
  pub user_lockup_tx_id : Option String
  pub claim_address : Option String
  pub claim_tx_id : Option String
  pub refund_tx_id : Option String

-- `ChainSwapUpdate { swap_id, to_state, ..Default::default() }`
abbrev pub to_state_only : String → PaymentState → ChainSwapUpdate
to_state_only id to = record {
  swap_id = id;
  to_state = to;
  server_lockup_tx_id = none;
  user_lockup_tx_id = none;
  claim_address = none;
  claim_tx_id = none;
  refund_tx_id = none;
}

abbrev pub touch : Table → ChainSwap → ChainSwap
touch table s = record s { metadata = touch_metadata table s.metadata }

abbrev pub schema : Table → Schema ChainSwap
schema table = record {
  id = λ s. s.id;
  id_hash = table.id_hash;
  touch = touch table;
  touch-id = λ s. refl;
}

abbrev pub commit_outgoing : Table → String → Option Fields → Db → Db
commit_outgoing table id fields db = record db {
  sync_outgoing = commit_change table chain_record id fields db.sync_outgoing;
}

-- Only the refund transaction is overwritten by an update that has one.
abbrev pub set_update : ChainSwapUpdate → ChainSwap → ChainSwap
set_update u s = record s {
  server_lockup_tx_id = or_else s.server_lockup_tx_id u.server_lockup_tx_id;
  user_lockup_tx_id = or_else s.user_lockup_tx_id u.user_lockup_tx_id;
  claim_address = or_else s.claim_address u.claim_address;
  claim_tx_id = or_else s.claim_tx_id u.claim_tx_id;
  refund_tx_id = or_else u.refund_tx_id s.refund_tx_id;
  state = u.to_state;
}

module _ (table : Table) where
  abbrev pub id_is : String → ChainSwap → Bool
  id_is id = has_id (schema table) id

  abbrev pub unclaimed : String → ChainSwap → Bool
  unclaimed id s = id_is id s && is_none s.claim_tx_id

  abbrev pub claimed_by : String → String → ChainSwap → Bool
  claimed_by id claim_tx_id s =
      id_is id s && elim (s.claim_tx_id) [ some tx ↦ str_eq tx claim_tx_id | none ↦ Bool.false ]

  abbrev pub update_rows : (ChainSwap → Bool) → (ChainSwap → ChainSwap) → Db → Db
  update_rows test set db = record db { swaps = update_where (schema table) test set db.swaps }

  unfoldable pub try_handle_chain_swap_update : ChainSwapUpdate → Action (Unit {0})
  try_handle_chain_swap_update u = change (λ db. update_rows (id_is u.swap_id) (set_update u) db)

  unfoldable pub update_chain_swap_accept_zero_conf : String → Bool → Action (Unit {0})
  update_chain_swap_accept_zero_conf id accept = change (λ db.
      commit_outgoing table id (some ("accept_zero_conf", []))
        (update_rows (id_is id) (λ s. record s { accept_zero_conf = accept }) db))

  unfoldable pub update_actual_payer_amount : String → ℕ → Action (Unit {0})
  update_actual_payer_amount id amount =
      change
        (λ db. update_rows (id_is id) (λ s. record s { actual_payer_amount_sat = some amount }) db)

  unfoldable pub update_accepted_receiver_amount : String → Option ℕ → Action (Unit {0})
  update_accepted_receiver_amount id amount = change (λ db.
      commit_outgoing table id (some ("accepted_receiver_amount_sat", []))
        (update_rows (id_is id) (λ s. record s { accepted_receiver_amount_sat = amount }) db))

  unfoldable pub set_chain_swap_refund_address : String → String → Action (Unit {0})
  set_chain_swap_refund_address id address =
      change (λ db. update_rows (id_is id) (λ s. record s { refund_address = some address }) db)

  unfoldable pub set_chain_swap_auto_accepted_fees : String → Action (Unit {0})
  set_chain_swap_auto_accepted_fees id = change (λ db.
      commit_outgoing table id (some ("auto_accepted_fees", []))
        (update_rows (id_is id) (λ s. record s { auto_accepted_fees = true }) db))

  unfoldable pub set_chain_swap_claim : String → Option String → String → Action (Unit {0})
  set_chain_swap_claim id address tx_id db =
      let row_count = length (filter (unclaimed id) db.swaps) in
      let db' =
        update_rows (unclaimed id)
          (λ s. record s { claim_address = address; claim_tx_id = some tx_id }) db in
      (if row_count == 1 then ok tt else err already_claimed, db')

  unfoldable pub unset_chain_swap_claim_tx_id : String → String → Action (Unit {0})
  unset_chain_swap_claim_tx_id id tx_id =
      change (λ db. update_rows (claimed_by id tx_id) (λ s. record s { claim_tx_id = none }) db)

abbrev pub fetch_chain_swap_by_lockup_address : String → List ChainSwap → Option ChainSwap
fetch_chain_swap_by_lockup_address address rows =
    find (λ (s : ChainSwap). str_eq s.lockup_address address) rows

abbrev pub list_pending_chain_swaps : List ChainSwap → List ChainSwap
list_pending_chain_swaps rows =
    filter
      (λ (s : ChainSwap).
        state_eq s.state pending
        || (state_eq s.state refund_pending || state_eq s.state waiting_fee_acceptance))
      rows
